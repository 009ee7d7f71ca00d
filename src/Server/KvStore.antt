-- ===== src/Server/KvStore.antt =====
-- KvStore of server/sfu_server/SfuKvStore.cpp. `now` is the steady clock in milliseconds when the
-- call reads it, which for a store that iterates is taken once.
pub mod Expiry
use tj_rtc.Prelude.{
  ℕ, zero, suc, ◌+◌, ◌-◌, ◌*◌, ◌/◌, ◌%◌, ◌^◌, ◌≤◌, ◌<◌, min, max, bit_and, bit_or, bit_xor, ◌≡◌,
  refl, sym, ap, subst, ◌∙◌, fun_ext, ◌≢◌, ◌↔◌, ◌⊎◌, inl, inr, Bool, true, false, not, ◌&&◌, ◌||◌,
  Option, none, some, List, [], ◌∷◌, ◌++◌, map, append-nil, append_assoc, arith, dec_lt, dec_le,
  ℕ_discrete, ltb, leb, ◌==◌, if◌then◌else◌, ltb→lt, lt→ltb, leb→le, ==_iff, tests, Bool-cases,
  Option-cases, length, get_elem?, set, take, drop, replicate, All, length-append, length-take,
  length-drop, take-append-drop, take-length_append, drop-length_append, ◌<<<◌, ◌>>>◌, shift_or,
  low_mask, disjoint_or, lt_wf,
}
use tj_rtc.Prelude.{Assoc, Key, find, erase, put, string_key}

pub record KvEntry : Type 0 where
  pub value : List ℕ
  pub created_at : ℕ
  pub ttl : Option ℕ

abbrev pub KvStore : Type 0
KvStore = Assoc (List ℕ) KvEntry

abbrev pub past : ℕ → ℕ → Option ℕ → Bool
past now created_at none = false
past now created_at (some limit) = ltb limit (now - created_at)

unfoldable pub is_expired : ℕ → KvEntry → Bool
is_expired now e = past now e.created_at e.ttl

unfoldable pub set_entry : KvStore → ℕ → List ℕ → List ℕ → Option ℕ → KvStore
set_entry store now key value ttl =
    put string_key store key (record { value = value; created_at = now; ttl = ttl })

abbrev pub live_value : ℕ → Option KvEntry → Option (List ℕ)
live_value now none = none
live_value now (some e) = if is_expired now e then none else some e.value

unfoldable pub get : KvStore → ℕ → List ℕ → Option (List ℕ)
get store now key = live_value now (find string_key store key)

abbrev pub is_some : Option KvEntry → Bool
is_some none = false
is_some (some e) = true

-- Delete, with what it returns.
unfoldable pub delete : KvStore → List ℕ → KvStore × Bool
delete store key = (erase string_key store key, is_some (find string_key store key))

abbrev pub live : ℕ → Option KvEntry → Bool
live now none = false
live now (some e) = not (is_expired now e)

unfoldable pub exists_key : KvStore → ℕ → List ℕ → Bool
exists_key store now key = live now (find string_key store key)

-- `key.rfind(prefix, 0) == 0`
unfoldable pub has_prefix : List ℕ → List ℕ → Bool
has_prefix key [] = true
has_prefix [] (p ∷ prefix) = false
has_prefix (k ∷ key) (p ∷ prefix) = let rest = has_prefix key prefix in k == p && rest

unfoldable pub keys_with_prefix : KvStore → ℕ → List ℕ → List (List ℕ)
keys_with_prefix [] now prefix = []
keys_with_prefix ((key, e) ∷ store) now prefix =
    let rest = keys_with_prefix store now prefix in
    if not (is_expired now e) && has_prefix key prefix then (key ∷ rest) else rest

-- CleanupExpired, with the count.
unfoldable pub cleanup_expired : KvStore → ℕ → KvStore × ℕ
cleanup_expired [] now = ([], 0)
cleanup_expired ((key, e) ∷ store) now =
    let (rest, count) = cleanup_expired store now in
    if is_expired now e then (rest, count + 1) else ((key, e) ∷ rest, count)

abbrev pub size : KvStore → ℕ
size store = length store
