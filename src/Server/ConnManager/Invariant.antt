-- ===== src/Server/ConnManager/Invariant.antt =====
-- Every entry of the map of addresses names a session that has this address.
use tj_rtc.Prelude.{
  ◌∷◌, ℕ, ◌≡◌, refl, sym, ap, subst, ◌∙◌, inl, inr, Bool, true, false, Option, none, some, List, [],
  Assoc, find, erase, put, number_key, string_key, Bool-cases, Option-cases, find-erase_other,
  find-put_same, find-put_other, find-put_cases, find-erase_cases, some_injective,
}
use tj_rtc.Server.ConnManager.{
  Session, ConnManager, session_of, new_session, add_session, create_unless, create_unless_fd,
  create_session, remove_found, remove_session, remove_found_by_addr, remove_session_by_addr,
}

pub record IsConsistent (m : ConnManager) : Type 0 where
  pub own : (fd : ℕ) (s : Session) → find number_key m.session_map fd ≡ some s → s.fd ≡ fd
  pub named :
      (addr : List ℕ) (fd : ℕ)
      → find string_key m.addr_fd_map addr ≡ some fd
      → (s : Session) × (find number_key m.session_map fd ≡ some s) × (s.remote_addr ≡ addr)

kept_by_put :
    (t : Assoc ℕ Session) (fd other : ℕ) (v s : Session)
    → find number_key t fd ≡ none
    → find number_key t other ≡ some s
    → find number_key (put number_key t fd v) other ≡ some s
kept_by_put t fd other v s free there = elim (Bool-cases (number_key.same fd other)) [
  | inl hit ↦
      let (eq, test) = number_key.same_iff fd other in
      absurd (
        let wrong : none ≡ some s =
          sym free ∙ subst (λ k. find number_key t k ≡ some s) (sym (eq hit)) there in
        cc)
  | inr miss ↦ find-put_other number_key t fd other v miss ∙ there
]

kept_by_erase :
    (t : Assoc ℕ Session) (fd other : ℕ) (s kept : Session)
    → find number_key t fd ≡ some s
    → find number_key t other ≡ some kept
    → (s ≡ kept → ⊥)
    → find number_key (erase number_key t fd) other ≡ some kept
kept_by_erase t fd other s kept here there apart = elim (Bool-cases (number_key.same fd other)) [
  | inl hit ↦
      let (eq, test) = number_key.same_iff fd other in
      absurd (
        apart (
          some_injective
            (sym here ∙ subst (λ k. find number_key t k ≡ some kept) (sym (eq hit)) there)))
  | inr miss ↦ find-erase_other number_key t fd other miss ∙ there
]

differs : (a b : List ℕ) → string_key.same a b ≡ false → a ≡ b → ⊥
differs a b miss e =
    let (eq, test) = string_key.same_iff a b in let wrong : true ≡ false = sym (test e) ∙ miss in cc

add_session-IsConsistent :
    (m : ConnManager) (fd : ℕ) (is_tcp : Bool) (addr : List ℕ)
    → find number_key m.session_map fd ≡ none
    → IsConsistent m
    → IsConsistent (add_session m fd is_tcp addr).0
add_session-IsConsistent m fd is_tcp addr free h = record {
  own = λ other s e.
      elim (find-put_cases number_key m.session_map fd other (new_session fd is_tcp addr) s e) [
        | inl (at, is) ↦ sym (ap (λ t. t.fd) is) ∙ at
        | inr (miss, found) ↦ h.own other s found
      ];
  named = λ other fd_2 e. elim (find-put_cases string_key m.addr_fd_map addr other fd fd_2 e) [
    | inl (at, is) ↦ (
      new_session fd is_tcp addr,
      subst
          (λ k.
            find number_key (put number_key m.session_map fd (new_session fd is_tcp addr)) k
            ≡ some (new_session fd is_tcp addr))
          is (find-put_same number_key m.session_map fd (new_session fd is_tcp addr)),
      at,
    )
    | inr (miss, found) ↦
        let (s, there, is) = h.named other fd_2 found in
        (s, kept_by_put m.session_map fd fd_2 (new_session fd is_tcp addr) s free there, is)
  ];
}

create_unless-IsConsistent :
    (m : ConnManager) (fd : ℕ) (is_tcp : Bool) (addr : List ℕ) (existing : Option Session)
    → find number_key m.session_map fd ≡ none
    → IsConsistent m
    → IsConsistent (create_unless m fd is_tcp addr existing).0
create_unless-IsConsistent m fd true addr existing free h =
    add_session-IsConsistent m fd true addr free h
create_unless-IsConsistent m fd false addr none free h =
    add_session-IsConsistent m fd false addr free h
create_unless-IsConsistent m fd false addr (some s) free h = h

create_unless_fd-IsConsistent :
    (m : ConnManager) (fd : ℕ) (is_tcp : Bool) (addr : List ℕ) (found : Option Session)
    → find number_key m.session_map fd ≡ found
    → IsConsistent m
    → IsConsistent (create_unless_fd m fd is_tcp addr found).0
create_unless_fd-IsConsistent m fd is_tcp addr none free h =
    create_unless-IsConsistent m fd is_tcp addr (session_of m (find string_key m.addr_fd_map addr))
      free h
create_unless_fd-IsConsistent m fd is_tcp addr (some s) here h = h

remove_found-IsConsistent :
    (m : ConnManager) (fd : ℕ) (s : Session)
    → find number_key m.session_map fd ≡ some s
    → IsConsistent m
    → IsConsistent (remove_found m fd (some s))
remove_found-IsConsistent m fd s here h = record {
  own = λ other t e.
      let (miss, found) = find-erase_cases number_key m.session_map fd other t e in
      h.own other t found;
  named = λ other fd_2 e.
      let (miss, found) = find-erase_cases string_key m.addr_fd_map s.remote_addr other fd_2 e in
      let (t, there, is) = h.named other fd_2 found in
      (
        t,
        kept_by_erase m.session_map fd fd_2 s t here there
            (λ same. differs s.remote_addr other miss (ap (λ u. u.remote_addr) same ∙ is)),
        is,
      );
}

remove_found_by_addr-IsConsistent :
    (m : ConnManager) (addr : List ℕ) (fd : ℕ)
    → find string_key m.addr_fd_map addr ≡ some fd
    → IsConsistent m
    → IsConsistent (remove_found_by_addr m addr (some fd))
remove_found_by_addr-IsConsistent m addr fd here h = record {
  own = λ other t e.
      let (miss, found) = find-erase_cases number_key m.session_map fd other t e in
      h.own other t found;
  named = λ other fd_2 e.
      let (miss, found) = find-erase_cases string_key m.addr_fd_map addr other fd_2 e in
      let (t, there, is) = h.named other fd_2 found in
      let (s, first, its) = h.named addr fd here in
      (
        t,
        kept_by_erase m.session_map fd fd_2 s t first there
            (λ same. differs addr other miss (sym its ∙ (ap (λ u. u.remote_addr) same ∙ is))),
        is,
      );
}

-- The calls that change the maps.
pub data Call : Type 0 where
  create : ℕ → Bool → List ℕ → Call
  remove : ℕ → Call
  remove_by_addr : List ℕ → Call

unfoldable pub apply : Call → ConnManager → ConnManager
unfolding create_session remove_session remove_session_by_addr
apply (create fd is_tcp addr) m = (create_session m fd is_tcp addr).0
apply (remove fd) m = remove_session m fd
apply (remove_by_addr addr) m = remove_session_by_addr m addr

-- In every state that is consistent each call leaves one: a session is stored under its own socket,
-- and what the map of addresses names is a stored session with this address.
pub apply-IsConsistent :
    (call : Call) (m : ConnManager) → IsConsistent m → IsConsistent (apply call m)
unfolding apply create_session remove_session remove_session_by_addr
apply-IsConsistent (create fd is_tcp addr) m h =
    create_unless_fd-IsConsistent m fd is_tcp addr (find number_key m.session_map fd) refl h
apply-IsConsistent (remove fd) m h = elim (Option-cases (find number_key m.session_map fd)) [
  | inl missing ↦ rw missing h
  | inr (s, here) ↦ rw here (remove_found-IsConsistent m fd s here h)
]
apply-IsConsistent (remove_by_addr addr) m h =
    elim (Option-cases (find string_key m.addr_fd_map addr)) [
      | inl missing ↦ rw missing h
      | inr (fd, here) ↦ rw here (remove_found_by_addr-IsConsistent m addr fd here h)
    ]

unfoldable pub apply_all : List Call → ConnManager → ConnManager
unfolding apply
apply_all [] m = m
apply_all (call ∷ calls) m = apply_all calls (apply call m)

pub apply_all-IsConsistent :
    (calls : List Call) (m : ConnManager) → IsConsistent m → IsConsistent (apply_all calls m)
unfolding apply_all
apply_all-IsConsistent [] m h = h
apply_all-IsConsistent (call ∷ calls) m h =
    apply_all-IsConsistent calls (apply call m) (apply-IsConsistent call m h)

abbrev pub no_sessions : ConnManager
no_sessions = record { session_map = []; addr_fd_map = [] }
