-- ===== src/Fec/Receiver/Slots.antt =====
-- Lists of numbers as sets, and the slots of a group's blocks (libs/frame_protoc/src/receiver.cpp).
use tj_rtc.Prelude.{
  ℕ, zero, suc, ◌+◌, ◌≤◌, ◌≡◌, refl, sym, ap, ◌∙◌, inl, inr, true, false, ◌||◌, some, List, [], ◌∷◌,
  ◌++◌, map, arith, ◌==◌, if◌then◌else◌, ==_iff, Bool-cases, length, get_elem?, All,
}
use tj_rtc.Prelude.{Assoc, find, put, number_key, find-put_same, find-put_other}
use tj_rtc.Fec.Receiver.Group.{is_set, point_slots}

-- No number twice.
abbrev pub IsDistinct : List ℕ → Type 0
IsDistinct [] = Unit {0}
IsDistinct (x ∷ xs) = (is_set xs x ≡ false) × IsDistinct xs

equal_self : (n : ℕ) → (n == n) ≡ true
equal_self n = let (eq, test) = ==_iff n n in test refl

pub is_set-append : (xs ys : List ℕ) (i : ℕ) → is_set (xs ++ ys) i ≡ (is_set xs i || is_set ys i)
is_set-append [] ys i = refl
is_set-append (x ∷ xs) ys i = elim (Bool-cases (x == i)) [
  | inl hit ↦ rw hit refl
  | inr miss ↦ rw miss (is_set-append xs ys i)
]

pub IsDistinct-snoc :
    (xs : List ℕ) (i : ℕ) → IsDistinct xs → is_set xs i ≡ false → IsDistinct (xs ++ (i ∷ []))
IsDistinct-snoc [] i h e = (refl, tt)
IsDistinct-snoc (x ∷ xs) i (fresh, h) e = elim (Bool-cases (x == i)) [
  | inl hit ↦ absurd (let wrong : true ≡ false = (rw hit at e) in cc)
  | inr miss ↦
      let later : is_set xs i ≡ false = (rw miss at e) in
      let other : (i == x) ≡ false = ground arith in
      (is_set-append xs (i ∷ []) x ∙ rw (fresh, other) refl, IsDistinct-snoc xs i h later)
]

-- A set without one of its numbers.
abbrev remove : List ℕ → ℕ → List ℕ
remove [] i = []
remove (x ∷ xs) i = let rest = remove xs i in if x == i then xs else (x ∷ rest)

length-remove : (xs : List ℕ) (i : ℕ) → is_set xs i ≡ true → suc (length (remove xs i)) ≡ length xs
length-remove [] i e = absurd (cc)
length-remove (x ∷ xs) i e = elim (Bool-cases (x == i)) [
  | inl hit ↦ rw hit refl
  | inr miss ↦ rw miss (ap suc (length-remove xs i (rw miss at e)))
]

is_set-remove :
    (xs : List ℕ) (i j : ℕ) → (i == j) ≡ false → is_set xs j ≡ true → is_set (remove xs i) j ≡ true
is_set-remove [] i j d e = absurd (cc)
is_set-remove (x ∷ xs) i j d e = elim (Bool-cases (x == i)) [
  | inl hit ↦
      let (eq, test) = ==_iff x i in
      let differ : (x == j) ≡ false = ap (λ n. n == j) (eq hit) ∙ d in rw hit (rw differ at e)
  | inr miss ↦ rw miss (elim (Bool-cases (x == j)) [
    | inl here ↦ rw here refl
    | inr there ↦ rw there (is_set-remove xs i j d (rw there at e))
  ])
]

-- Distinct numbers that are all in a list are no more than the list has.
pub pigeonhole :
    (xs ys : List ℕ)
    → IsDistinct xs
    → ((i : ℕ) → is_set xs i ≡ true → is_set ys i ≡ true)
    → length xs ≤ length ys
pigeonhole [] ys h inside = omega arith
pigeonhole (x ∷ xs) ys (fresh, h) inside =
    let here : is_set ys x ≡ true = inside x (rw (equal_self x) refl) in
    let rest = pigeonhole xs (remove ys x) h λ i member. elim (Bool-cases (x == i)) [
      | inl same ↦
          let (eq, test) = ==_iff x i in
          let gone : is_set xs i ≡ false = ap (is_set xs) (sym (eq same)) ∙ fresh in
          absurd (let wrong : true ≡ false = sym member ∙ gone in cc)
      | inr other ↦ is_set-remove ys x i other (inside i (rw other member))
    ] in
    omega (arith, length-remove ys x here)

-- The blocks that a word has at their indices.
abbrev pub FromWord : List (List ℕ) → List ℕ × ℕ → Type 0
FromWord word (block, i) = get_elem? word i ≡ some block

abbrev pub indices_of : List (List ℕ × ℕ) → List ℕ
indices_of blocks = map (λ b. b.1) blocks

pub get_elem?-append {ℓ} :
    {A : Type ℓ} (xs ys : List A) (s : ℕ) (a : A)
    → get_elem? xs s ≡ some a
    → get_elem? (xs ++ ys) s ≡ some a
get_elem?-append [] ys s a e = absurd (cc)
get_elem?-append (x ∷ xs) ys zero a e = e
get_elem?-append (x ∷ xs) ys (suc s) a e = get_elem?-append xs ys s a e

pub get_elem?-last {ℓ} :
    {A : Type ℓ} (xs : List A) (a : A) → get_elem? (xs ++ (a ∷ [])) (length xs) ≡ some a
get_elem?-last [] a = refl
get_elem?-last (x ∷ xs) a = get_elem?-last xs a

point_slots-other :
    (slots : Assoc ℕ ℕ) (s : ℕ) (blocks : List (List ℕ × ℕ)) (i : ℕ)
    → is_set (indices_of blocks) i ≡ false
    → find number_key (point_slots slots s blocks) i ≡ find number_key slots i
unfolding point_slots
point_slots-other slots s [] i e = refl
point_slots-other slots s ((block, index) ∷ blocks) i e = elim (Bool-cases (index == i)) [
  | inl hit ↦ absurd (let wrong : true ≡ false = (rw hit at e) in cc)
  | inr miss ↦
      point_slots-other (put number_key slots index s) (s + 1) blocks i (rw miss at e)
      ∙ find-put_other number_key slots index i s miss
]

-- After the loop every index of a block has the slot of a block with this index.
pub point_slots_lem :
    (slots : Assoc ℕ ℕ) (s : ℕ) (blocks : List (List ℕ × ℕ)) (word : List (List ℕ)) (i : ℕ)
    → All (FromWord word) blocks
    → is_set (indices_of blocks) i ≡ true
    → (at : ℕ) × (block : List ℕ) × (find number_key (point_slots slots s blocks) i ≡ some (s + at))
      × (get_elem? (map (λ b. b.0) blocks) at ≡ some block)
      × (get_elem? word i ≡ some block)
unfolding point_slots
point_slots_lem slots s [] word i h e = absurd (cc)
point_slots_lem slots s ((block, index) ∷ blocks) word i (first, h) e =
    let next = put number_key slots index s in
    elim (Bool-cases (is_set (indices_of blocks) i)) [
      | inl later ↦
          let (at, b, found, stored, inside) = point_slots_lem next (s + 1) blocks word i h later in
          let sum : s + 1 + at ≡ s + suc at = omega arith in
          (suc at, b, found ∙ ap some sum, stored, inside)
      | inr last ↦ elim (Bool-cases (index == i)) [
        | inl hit ↦
            let (eq, test) = ==_iff index i in
            let here : s ≡ s + 0 = omega arith in
            (
              0,
              block,
              point_slots-other next (s + 1) blocks i last
                  ∙ ap (find number_key next) (sym (eq hit))
                  ∙ find-put_same number_key slots index s
                  ∙ ap some here,
              refl,
              ap (get_elem? word) (sym (eq hit)) ∙ first,
            )
        | inr miss ↦ absurd (
            let gone : is_set (indices_of blocks) i ≡ true = (rw miss at e) in
            let wrong : true ≡ false = sym gone ∙ last in cc)
      ]
    ]
