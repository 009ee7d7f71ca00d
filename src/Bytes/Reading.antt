-- ===== src/Bytes/Reading.antt =====
-- The cursor of the parsers: `data + offset` is the list of the bytes that are not yet read, so
-- `len - offset` is its length.
use tj_rtc.Prelude.{ℕ, zero, suc, Bool, List, [], ◌∷◌, ltb, length, if◌then◌else◌}

-- `reject` is a parser's early return with `valid == false`; `fault` is no result of the code: it
-- stands for a read past the end of the buffer.
pub data Outcome {ℓ} (A : Type ℓ) : Type ℓ where
  ok : A → Outcome A
  reject : Outcome A
  fault : Outcome A

abbrev pub Cursor {ℓ} : Type ℓ → Type ℓ
Cursor A = List ℕ → Outcome (A × List ℕ)

abbrev pub continue {ℓ κ} :
    {A : Type ℓ} {B : Type κ} → (A → Cursor B) → Outcome (A × List ℕ) → Outcome (B × List ℕ)
continue f (ok (a, rest)) = f a rest
continue f reject = reject
continue f fault = fault

infixl 5 ◌>>=◌ ◌>>◌
abbrev pub ◌>>=◌ {ℓ κ} : {A : Type ℓ} {B : Type κ} → Cursor A → (A → Cursor B) → Cursor B
◌>>=◌ m f bytes = continue f (m bytes)

abbrev pub ◌>>◌ {ℓ κ} : {A : Type ℓ} {B : Type κ} → Cursor A → Cursor B → Cursor B
m >> k = m >>= λ _. k

abbrev pub return {ℓ} : {A : Type ℓ} → A → Cursor A
return a bytes = ok (a, bytes)

-- `if (offset + n > len) return …;`
unfoldable pub need : ℕ → Cursor (Unit {0})
need n bytes = if ltb (length bytes) n then reject else ok (tt, bytes)

-- `if (!test) return …;`
unfoldable pub check : Bool → Cursor (Unit {0})
check test bytes = if test then ok (tt, bytes) else reject

-- `data[offset++]`
unfoldable pub read_u8 : Cursor ℕ
read_u8 [] = fault
read_u8 (b ∷ bytes) = ok (b, bytes)

abbrev pub push {ℓ} : {A : Type ℓ} → A → Outcome (List A × List ℕ) → Outcome (List A × List ℕ)
push b (ok (taken, rest)) = ok (b ∷ taken, rest)
push b reject = reject
push b fault = fault

-- `assign(data + offset, n); offset += n;`
unfoldable pub read_bytes : ℕ → Cursor (List ℕ)
read_bytes zero bytes = ok ([], bytes)
read_bytes (suc n) [] = fault
read_bytes (suc n) (b ∷ bytes) = push b (read_bytes n bytes)

-- The rest of the buffer, as a pointer and a length.
unfoldable pub read_rest : Cursor (List ℕ)
read_rest bytes = ok (bytes, [])

-- What a parser returns, without the cursor.
abbrev pub result {ℓ} : {A : Type ℓ} → Outcome (A × List ℕ) → Outcome A
result (ok (a, rest)) = ok a
result reject = reject
result fault = fault
