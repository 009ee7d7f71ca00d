-- ===== src/Client/Deduplicator/Window.antt =====
-- A deduplicator remembers the last `max_entries` new numbers.
use tj_rtc.Prelude.{
  ℕ, suc, ◌≤◌, ◌≡◌, refl, sym, ap, subst, ◌∙◌, inl, inr, Bool, true, false, List, [], ◌∷◌, ◌++◌,
  arith, ltb, ◌==◌, if◌then◌else◌, ==_iff, Bool-cases, length, length-append,
}
use tj_rtc.Client.Deduplicator.{
  P2pDeduplicator, has, erased, drop_front, pushed, seen, reset_seen, seen_size,
}

abbrev pub AreApart : List ℕ → Type 0
AreApart [] = Unit
AreApart (x ∷ xs) = (has x xs ≡ false) × AreApart xs

-- The set and the queue hold the same numbers, each once, and no more than the limit.
pub record IsWindow (d : P2pDeduplicator) : Type 0 where
  pub same : (x : ℕ) → has x d.seen_set ≡ has x d.seen_queue
  pub set_apart : AreApart d.seen_set
  pub queue_apart : AreApart d.seen_queue
  pub same_size : length d.seen_set ≡ length d.seen_queue
  pub few : length d.seen_queue ≤ d.max_entries

has-append : (x y : ℕ) (xs : List ℕ) → has x (xs ++ (y ∷ [])) ≡ (if x == y then true else has x xs)
has-append x y [] = refl
has-append x y (z ∷ xs) = elim (Bool-cases (x == z)) [
  | inl hit ↦ elim (Bool-cases (x == y)) [
    | inl at ↦ rw (hit, at) refl
    | inr miss ↦ rw (hit, miss) refl
  ]
  | inr miss ↦ rw miss (has-append x y xs)
]

apart-append : (y : ℕ) (xs : List ℕ) → AreApart xs → has y xs ≡ false → AreApart (xs ++ (y ∷ []))
apart-append y [] h new = (refl, tt)
apart-append y (x ∷ xs) (first, h) new = elim (Bool-cases (y == x)) [
  | inl hit ↦ absurd (let wrong : true ≡ false = (rw hit at new) in cc)
  | inr miss ↦
      let other : (x == y) ≡ false = ground (arith, miss) in
      (has-append x y xs ∙ rw other first, apart-append y xs h (rw miss at new))
]

has-erased : (x y : ℕ) (xs : List ℕ) → has x (erased y xs) ≡ (if y == x then false else has x xs)
has-erased x y [] = elim (Bool-cases (y == x)) [ inl hit ↦ rw hit refl | inr miss ↦ rw miss refl ]
has-erased x y (z ∷ xs) = ground (arith, has-erased x y xs)

erased-absent : (y : ℕ) (xs : List ℕ) → has y xs ≡ false → erased y xs ≡ xs
erased-absent y [] h = refl
erased-absent y (x ∷ xs) h = elim (Bool-cases (y == x)) [
  | inl hit ↦ absurd (let wrong : true ≡ false = (rw hit at h) in cc)
  | inr miss ↦ rw miss (ap (λ zs. x ∷ zs) (erased-absent y xs (rw miss at h)))
]

length-erased :
    (y : ℕ) (xs : List ℕ) → AreApart xs → has y xs ≡ true → suc (length (erased y xs)) ≡ length xs
length-erased y [] h k = absurd (cc)
length-erased y (x ∷ xs) (new, h) k = elim (Bool-cases (y == x)) [
  | inl hit ↦
      let (eq, test) = ==_iff y x in
      let gone = erased-absent y xs (subst (λ z. has z xs ≡ false) (sym (eq hit)) new) in
      rw (hit, gone) refl
  | inr miss ↦ rw miss (ap (λ (n : ℕ). suc n) (length-erased y xs h (rw miss at k)))
]

apart-erased : (y : ℕ) (xs : List ℕ) → AreApart xs → AreApart (erased y xs)
apart-erased y [] h = tt
apart-erased y (x ∷ xs) (new, h) = elim (Bool-cases (y == x)) [
  | inl hit ↦ rw hit (apart-erased y xs h)
  | inr miss ↦ rw miss (has-erased x y xs ∙ rw miss new, apart-erased y xs h)
]

pushed-same :
    (d : P2pDeduplicator) (n x : ℕ)
    → IsWindow d
    → has x (pushed d n).seen_set ≡ has x (pushed d n).seen_queue
pushed-same d n x h = sym (has-append x n d.seen_queue ∙ rw (h.same x) refl)

front_gone :
    (front x : ℕ) (queue : List ℕ) (b : Bool)
    → has front queue ≡ false
    → b ≡ has x (front ∷ queue)
    → (if front == x then false else b) ≡ has x queue
front_gone front x queue b first h = elim (Bool-cases (front == x)) [
  | inl hit ↦
      let (eq, test) = ==_iff front x in
      rw hit (sym (subst (λ z. has z queue ≡ false) (eq hit) first))
  | inr miss ↦
      let other : (x == front) ≡ false = ground (arith, miss) in rw miss (h ∙ rw other refl)
]

pub has-front : (x : ℕ) (xs : List ℕ) → has x (x ∷ xs) ≡ true
has-front x xs = let (eq, test) = ==_iff x x in rw (test refl) refl

-- The front is dropped from the set and from the queue.
pub drop_front-IsWindow :
    (d : P2pDeduplicator) (n : ℕ) (queue : List ℕ)
    → IsWindow d
    → has n d.seen_set ≡ false
    → (pushed d n).seen_queue ≡ queue
    → IsWindow (drop_front (pushed d n) queue)
drop_front-IsWindow d n [] h new e =
    absurd (omega (arith, ap (length {A = ℕ}) e, length-append {0} d.seen_queue (n ∷ [])))
drop_front-IsWindow d n (front ∷ queue) h new e =
    let size = ap (length {A = ℕ}) e in
    let sum = length-append {0} d.seen_queue (n ∷ []) in
    let apart : AreApart (pushed d n).seen_queue =
      apart-append n d.seen_queue h.queue_apart (sym (h.same n) ∙ new) in
    let (first, rest) : AreApart (front ∷ queue) = subst AreApart e apart in
    let same : (x : ℕ) → has x (pushed d n).seen_set ≡ has x (front ∷ queue) =
      λ x. pushed-same d n x h ∙ ap (has x) e in
    elim (Bool-cases (ltb d.max_entries (length (front ∷ queue)))) [
      | inl many ↦ rw many (record {
        same = λ x.
            has-erased x front (n ∷ d.seen_set)
            ∙ front_gone front x queue (has x (n ∷ d.seen_set)) first (same x);
        set_apart = apart-erased front (n ∷ d.seen_set) (new, h.set_apart);
        queue_apart = rest;
        same_size =
            let one_less =
              length-erased front (n ∷ d.seen_set) (new, h.set_apart)
                (same front ∙ has-front front queue) in
            omega (arith, one_less, size, sum, h.same_size);
        few = omega (arith, size, sum, h.few);
      })
      | inr fits ↦ rw fits (record {
        same = λ x. pushed-same d n x h;
        set_apart = (new, h.set_apart);
        queue_apart = apart;
        same_size = omega (arith, sum, h.same_size);
        few = ground (arith, fits, size);
      })
    ]

pub same_limit :
    (d : P2pDeduplicator) (queue : List ℕ) → (drop_front d queue).max_entries ≡ d.max_entries
same_limit d [] = refl
same_limit d (front ∷ queue) = elim (Bool-cases (ltb d.max_entries (length (front ∷ queue)))) [
  | inl many ↦ rw many refl
  | inr fits ↦ rw fits refl
]

-- Every call keeps the set and the queue the same numbers, each once, at most `max_entries`; `seen`
-- returns whether the number is among them, and the size is their number.
pub seen-IsWindow :
    (d : P2pDeduplicator) (n : ℕ)
    → IsWindow d
    → IsWindow (seen d n).0
      × IsWindow (reset_seen d)
      × ((seen d n).1 ≡ has n d.seen_queue)
      × (seen_size (seen d n).0 ≤ d.max_entries)
unfolding seen reset_seen seen_size
seen-IsWindow d n h =
    let empty : IsWindow (reset_seen d) = record {
      same = λ x. refl;
      set_apart = tt;
      queue_apart = tt;
      same_size = omega arith;
      few = omega arith;
    } in
    elim (Bool-cases (has n d.seen_set)) [
      | inl old ↦ rw old (h, empty, sym old ∙ h.same n, omega (arith, h.same_size, h.few))
      | inr new ↦
          let next = drop_front-IsWindow d n (pushed d n).seen_queue h new refl in
          let limit : (drop_front (pushed d n) (pushed d n).seen_queue).max_entries
              ≡ d.max_entries =
            same_limit (pushed d n) (pushed d n).seen_queue in
          rw new (next, empty, sym new ∙ h.same n, omega (arith, next.same_size, next.few, limit))
    ]
