-- ===== src/Server/ConnManager/Lookup.antt =====
-- What is looked up in the two maps after a call.
use tj_rtc.Prelude.{
  ℕ, ◌≡◌, refl, sym, ap, subst, ◌∙◌, inl, inr, Bool, true, false, Option, none, some, List, find,
  number_key, string_key, Option-cases, find-erase_same, find-put_same, some_injective,
}
use tj_rtc.Server.ConnManager.{
  Session, ConnManager, get_session, session_of, get_session_by_addr, new_session, create_unless,
  create_unless_fd, create_session, remove_found, remove_session, remove_found_by_addr,
  remove_session_by_addr,
}
use tj_rtc.Server.ConnManager.Invariant.{
  IsConsistent, Call, apply_all, apply_all-IsConsistent, no_sessions,
}

named_session :
    (m : ConnManager) (addr : List ℕ) (s : Session)
    → IsConsistent m
    → session_of m (find string_key m.addr_fd_map addr) ≡ some s
    → (s.remote_addr ≡ addr) × (find number_key m.session_map s.fd ≡ some s)
named_session m addr s h e = elim (Option-cases (find string_key m.addr_fd_map addr)) [
  | inl missing ↦ absurd (let wrong : none ≡ some s = sym (ap (session_of m) missing) ∙ e in cc)
  | inr (fd, here) ↦
      let (t, there, is) = h.named addr fd here in
      let found : find number_key m.session_map fd ≡ some s = sym (ap (session_of m) here) ∙ e in
      let same : t ≡ s = some_injective (sym there ∙ found) in
      (
        sym (ap (λ u. u.remote_addr) same) ∙ is,
        subst (λ k. find number_key m.session_map k ≡ some s) (sym (h.own fd s found)) found,
      )
]

pub no_sessions-IsConsistent : IsConsistent no_sessions
unfolding find
no_sessions-IsConsistent = record { own = λ fd t e. absurd (cc); named = λ a fd e. absurd (cc) }

-- After any sequence of calls on a new manager, a session that is found by an address has this
-- address, and is the one that its socket finds.
pub get_session_by_addr_sound :
    (calls : List Call) (addr : List ℕ) (s : Session)
    → get_session_by_addr (apply_all calls no_sessions) addr ≡ some s
    → (s.remote_addr ≡ addr) × (get_session (apply_all calls no_sessions) s.fd ≡ some s)
unfolding get_session_by_addr get_session
get_session_by_addr_sound calls addr s e =
    named_session (apply_all calls no_sessions) addr s
      (apply_all-IsConsistent calls no_sessions no_sessions-IsConsistent) e

create_unless-find :
    (m : ConnManager) (fd : ℕ) (is_tcp : Bool) (addr : List ℕ)
    → IsConsistent m
    → (o : Option Session) → session_of m (find string_key m.addr_fd_map addr) ≡ o
    → let (next, s) = create_unless m fd is_tcp addr o in
      (find number_key next.session_map s.fd ≡ some s)
create_unless-find m fd true addr h o e =
    find-put_same number_key m.session_map fd (new_session fd true addr)
create_unless-find m fd false addr h none e =
    find-put_same number_key m.session_map fd (new_session fd false addr)
create_unless-find m fd false addr h (some s) e =
    let (is, found) = named_session m addr s h e in found

create_unless_fd-find :
    (m : ConnManager) (fd : ℕ) (is_tcp : Bool) (addr : List ℕ)
    → IsConsistent m
    → (o : Option Session) → find number_key m.session_map fd ≡ o
    → let (next, s) = create_unless_fd m fd is_tcp addr o in
      (find number_key next.session_map s.fd ≡ some s)
create_unless_fd-find m fd is_tcp addr h none e =
    create_unless-find m fd is_tcp addr h (session_of m (find string_key m.addr_fd_map addr)) refl
create_unless_fd-find m fd is_tcp addr h (some s) e =
    subst (λ k. find number_key m.session_map k ≡ some s) (sym (h.own fd s e)) e

remove_found-find :
    (m : ConnManager) (fd : ℕ) (o : Option Session)
    → find number_key m.session_map fd ≡ o
    → find number_key (remove_found m fd o).session_map fd ≡ none
remove_found-find m fd none e = e
remove_found-find m fd (some s) e = find-erase_same number_key m.session_map fd

remove_found_by_addr-find :
    (m : ConnManager) (addr : List ℕ) (o : Option ℕ)
    → find string_key m.addr_fd_map addr ≡ o
    → session_of
        (remove_found_by_addr m addr o)
        (find string_key (remove_found_by_addr m addr o).addr_fd_map addr)
      ≡ none
remove_found_by_addr-find m addr none e = ap (session_of m) e
remove_found_by_addr-find m addr (some fd) e =
    ap (session_of (remove_found_by_addr m addr (some fd)))
      (find-erase_same string_key m.addr_fd_map addr)

-- In a consistent state: the session that CreateSession returns, a new one or an old one, is found by
-- its socket; a removed socket finds no session, and neither does a removed address.
sessions-lookup :
    (m : ConnManager) (fd : ℕ) (is_tcp : Bool) (addr : List ℕ)
    → IsConsistent m
    → (let (next, s) = create_session m fd is_tcp addr in get_session next s.fd ≡ some s)
      × (get_session (remove_session m fd) fd ≡ none)
      × (get_session_by_addr (remove_session_by_addr m addr) addr ≡ none)
unfolding create_session get_session remove_session remove_session_by_addr get_session_by_addr
sessions-lookup m fd is_tcp addr h = (
  create_unless_fd-find m fd is_tcp addr h (find number_key m.session_map fd) refl,
  remove_found-find m fd (find number_key m.session_map fd) refl,
  remove_found_by_addr-find m addr (find string_key m.addr_fd_map addr) refl,
)
