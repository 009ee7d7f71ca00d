-- ===== src/Prelude/Table.antt =====
-- A map as the list of its pairs, for any test of equal keys.
use Prim.Native.Nat.{ℕ, ◌≤◌, ◌<◌}
use native.Mathlib.Omega.{arith}
use tj_rtc.Prelude.Lists.{length}
use mathlib.Core.Path.{◌≡◌, refl, sym, ap, subst, ◌∙◌}
use mathlib.Core.Logic.{◌↔◌, ◌⊎◌, inl, inr}
use mathlib.Core.Bool.{Bool, true, false}
use mathlib.Core.Option.{Option, none, some}
use mathlib.Core.List.{List, [], ◌∷◌}
use tj_rtc.Prelude.Tests.{if◌then◌else◌, Bool-cases, ◌==◌, ==_iff}

abbrev pub Assoc {ℓ κ} : Type ℓ → Type κ → Type (ℓ ⊔ κ)
Assoc K V = List (K × V)

-- An interface of keys: a test, and that it decides equality.
pub record Key {ℓ} (K : Type ℓ) : Type ℓ where
  pub same : K → K → Bool
  pub same_iff : (a b : K) → (same a b ≡ true) ↔ (a ≡ b)

pub some_injective {ℓ} : {A : Type ℓ} {a b : A} → some a ≡ some b → a ≡ b
some_injective h = cc

module _ {ℓ κ} {K : Type ℓ} {V : Type κ} (key : Key K) where
  unfoldable pub find : Assoc K V → K → Option V
  find [] k = none
  find ((j, v) ∷ t) k = let rest = find t k in if key.same j k then some v else rest

  unfoldable pub erase : Assoc K V → K → Assoc K V
  erase [] k = []
  erase ((j, v) ∷ t) k = let rest = erase t k in if key.same j k then rest else ((j, v) ∷ rest)

  unfoldable pub put : Assoc K V → K → V → Assoc K V
  unfolding erase
  put t k v = (k, v) ∷ erase t k

  pub find-erase_same : (t : Assoc K V) (k : K) → find (erase t k) k ≡ none
  unfolding find erase
  find-erase_same [] k = refl
  find-erase_same ((j, v) ∷ t) k = elim (Bool-cases (key.same j k)) [
    | inl hit ↦ rw hit (find-erase_same t k)
    | inr miss ↦ rw (miss, miss) (find-erase_same t k)
  ]

  pub find-erase_other :
      (t : Assoc K V) (k other : K)
      → key.same k other ≡ false
      → find (erase t k) other ≡ find t other
  unfolding find erase
  find-erase_other [] k other h = refl
  find-erase_other ((j, v) ∷ t) k other h = elim (Bool-cases (key.same j k)) [
    | inl hit ↦
        let (eq, test) = key.same_iff j k in rw (hit, eq hit, h) (find-erase_other t k other h)
    | inr miss ↦ elim (Bool-cases (key.same j other)) [
      | inl here ↦ rw (miss, here) refl
      | inr there ↦ rw (miss, there) (find-erase_other t k other h)
    ]
  ]

  pub find-put_same : (t : Assoc K V) (k : K) (v : V) → find (put t k v) k ≡ some v
  unfolding find put
  find-put_same t k v = let (eq, test) = key.same_iff k k in rw (test refl) refl

  pub find-put_other :
      (t : Assoc K V) (k other : K) (v : V)
      → key.same k other ≡ false
      → find (put t k v) other ≡ find t other
  unfolding find put
  find-put_other t k other v h = rw h (find-erase_other t k other h)

  -- What is found in a map that has changed.
  pub find-put_cases :
      (t : Assoc K V) (k other : K) (v w : V)
      → find (put t k v) other ≡ some w
      → ((k ≡ other) × (v ≡ w)) ⊎ ((key.same k other ≡ false) × (find t other ≡ some w))
  find-put_cases t k other v w e = elim (Bool-cases (key.same k other)) [
    | inl hit ↦
        let (eq, test) = key.same_iff k other in
        let found = subst (λ j. find (put t k v) j ≡ some w) (sym (eq hit)) e in
        inl (eq hit, some_injective (sym (find-put_same t k v) ∙ found))
    | inr miss ↦ inr (miss, sym (find-put_other t k other v miss) ∙ e)
  ]

  pub find-erase_cases :
      (t : Assoc K V) (k other : K) (w : V)
      → find (erase t k) other ≡ some w
      → (key.same k other ≡ false) × (find t other ≡ some w)
  find-erase_cases t k other w e = elim (Bool-cases (key.same k other)) [
    | inl hit ↦
        let (eq, test) = key.same_iff k other in
        let found = subst (λ j. find (erase t k) j ≡ some w) (sym (eq hit)) e in
        absurd (let wrong : none ≡ some w = sym (find-erase_same t k) ∙ found in cc)
    | inr miss ↦ (miss, sym (find-erase_other t k other miss) ∙ e)
  ]

  -- A key that is there makes the table shorter by its removal.
  pub length-erase_le : (t : Assoc K V) (k : K) → length (erase t k) ≤ length t
  unfolding erase
  length-erase_le [] k = omega arith
  length-erase_le ((j, v) ∷ t) k = elim (Bool-cases (key.same j k)) [
    | inl hit ↦ rw hit (omega (arith, length-erase_le t k))
    | inr miss ↦ rw miss (omega (arith, length-erase_le t k))
  ]

  pub length-erase_lt :
      (t : Assoc K V) (k : K) (v : V) → find t k ≡ some v → length (erase t k) < length t
  unfolding find erase
  length-erase_lt [] k v e = absurd (cc)
  length-erase_lt ((j, w) ∷ t) k v e = elim (Bool-cases (key.same j k)) [
    | inl hit ↦ rw hit (omega (arith, length-erase_le t k))
    | inr miss ↦
        let found : find t k ≡ some v = (rw miss at e) in
        rw miss (omega (arith, length-erase_lt t k v found))
  ]

abbrev pub number_key : Key ℕ
number_key = record { same = λ a b. a == b; same_iff = ==_iff }

-- Strings, as the lists of their bytes.
abbrev pub same_string : List ℕ → List ℕ → Bool
same_string [] [] = true
same_string [] (y ∷ ys) = false
same_string (x ∷ xs) [] = false
same_string (x ∷ xs) (y ∷ ys) = let rest = same_string xs ys in if x == y then rest else false

pub same_string_eq : (xs ys : List ℕ) → same_string xs ys ≡ true → xs ≡ ys
same_string_eq [] [] h = refl
same_string_eq [] (y ∷ ys) h = absurd (cc)
same_string_eq (x ∷ xs) [] h = absurd (cc)
same_string_eq (x ∷ xs) (y ∷ ys) h = elim (Bool-cases (x == y)) [
  | inl hit ↦
      let (eq, test) = ==_iff x y in
      let rest : same_string xs ys ≡ true = (rw hit at h) in
      ap (λ z. z ∷ xs) (eq hit) ∙ ap (λ zs. y ∷ zs) (same_string_eq xs ys rest)
  | inr miss ↦ absurd (let wrong : false ≡ true = (rw miss at h) in cc)
]

pub same_string_refl : (xs : List ℕ) → same_string xs xs ≡ true
same_string_refl [] = refl
same_string_refl (x ∷ xs) = let (eq, test) = ==_iff x x in rw (test refl) (same_string_refl xs)

abbrev pub string_key : Key (List ℕ)
string_key = record {
  same = same_string;
  same_iff =
      λ a b. (same_string_eq a b, λ e. subst (λ c. same_string a c ≡ true) e (same_string_refl a));
}
