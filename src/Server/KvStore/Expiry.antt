-- ===== src/Server/KvStore/Expiry.antt =====
-- What a store returns after a write, after a deletion, after a time, and after a cleanup.
use tj_rtc.Prelude.{
  ℕ, ◌+◌, ◌-◌, ◌≤◌, ◌<◌, ◌≡◌, refl, subst, inl, inr, true, false, Option, none, some, List, [], ◌∷◌,
  arith, ltb, Bool-cases,
}
use tj_rtc.Prelude.{find, string_key, find-put_same, find-put_other}
use tj_rtc.Server.KvStore.{KvStore, past, is_expired, set_entry, get, cleanup_expired, size}

-- A value that is written at `start` with a limit is returned until the limit has passed and never
-- after it; one without a limit is returned at all times; every other key is as before.
get-set_entry :
    (store : KvStore) (start now limit : ℕ) (key other value : List ℕ)
    → (now ≤ start + limit
        → get (set_entry store start key value (some limit)) now key ≡ some value)
      × (start + limit < now → get (set_entry store start key value (some limit)) now key ≡ none)
      × (get (set_entry store start key value none) now key ≡ some value)
      × (string_key.same key other ≡ false
          → get (set_entry store start key value (some limit)) now other ≡ get store now other)
unfolding get set_entry is_expired
get-set_entry store start now limit key other value = (
  λ h.
      let early : ltb limit (now - start) ≡ false = ground arith in
      rw (find-put_same string_key store key _, early) refl,
  λ h.
      let late : ltb limit (now - start) ≡ true = ground arith in
      rw (find-put_same string_key store key _, late) refl,
  rw (find-put_same string_key store key _) refl,
  λ h. rw (find-put_other string_key store key other _ h) refl,
)

-- No key is stored twice.
abbrev pub IsUnique : KvStore → Type 0
IsUnique [] = Unit
IsUnique ((key, e) ∷ store) = (find string_key store key ≡ none) × IsUnique store

past_later :
    (now later created_at : ℕ) (ttl : Option ℕ)
    → now ≤ later
    → past now created_at ttl ≡ true
    → past later created_at ttl ≡ true
past_later now later created_at none le h = h
past_later now later created_at (some limit) le h = ground (arith, h)

find-cleanup_none :
    (store : KvStore) (now : ℕ) (key : List ℕ)
    → find string_key store key ≡ none
    → find string_key (cleanup_expired store now).0 key ≡ none
unfolding find cleanup_expired
find-cleanup_none [] now key h = refl
find-cleanup_none ((k, e) ∷ store) now key h = elim (Bool-cases (string_key.same k key)) [
  | inl hit ↦ absurd (let wrong : some e ≡ none = (rw hit at h) in cc)
  | inr miss ↦
      let rest = find-cleanup_none store now key (rw miss at h) in
      elim (Bool-cases (is_expired now e)) [
        | inl old ↦ rw old rest
        | inr fresh ↦ rw (fresh, miss) rest
      ]
]

-- A cleanup is not seen by any later read of a store with distinct keys, and its count is the
-- number of the entries that are gone.
pub get-cleanup_expired :
    (store : KvStore) (now later : ℕ) (key : List ℕ)
    → IsUnique store
    → now ≤ later
    → (get (cleanup_expired store now).0 later key ≡ get store later key)
      × (size (cleanup_expired store now).0 + (cleanup_expired store now).1 ≡ size store)
unfolding get cleanup_expired find is_expired
get-cleanup_expired [] now later key h le = (refl, omega arith)
get-cleanup_expired ((k, e) ∷ store) now later key (new, h) le =
    let (rest, count) = get-cleanup_expired store now later key h le in
    elim (Bool-cases (past now e.created_at e.ttl)) [
      | inl old ↦ elim (Bool-cases (string_key.same k key)) [
        | inl hit ↦
            let (eq, test) = string_key.same_iff k key in
            let gone =
              find-cleanup_none store now key
                (subst (λ j. find string_key store j ≡ none) (eq hit) new) in
            rw (old, hit, gone, past_later now later e.created_at e.ttl le old)
              (refl, omega (arith, count))
        | inr miss ↦ rw (old, miss) (rest, omega (arith, count))
      ]
      | inr fresh ↦ elim (Bool-cases (string_key.same k key)) [
        | inl hit ↦ rw (fresh, hit) (refl, omega (arith, count))
        | inr miss ↦ rw (fresh, miss) (rest, omega (arith, count))
      ]
    ]
