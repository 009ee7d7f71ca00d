-- ===== src/Bytes/Steps.antt =====
-- A parser run on bytes that were written for it, one step at a time.
use tj_rtc.Prelude.{
  ℕ, ◌^◌, ◌≤◌, ◌<◌, ◌≡◌, inl, inr, Bool, true, List, ◌++◌, ltb, tests, Bool-cases, length,
}
use tj_rtc.Bytes.Reading.{Outcome, Cursor, ◌>>=◌, need, check, read_bytes}
use tj_rtc.Bytes.Endian.{
  write_be16, write_be32, write_be64, read_be16, read_be32, read_be64, write_seq_num, read_seq_num,
}
use tj_rtc.Bytes.RoundTrip.{
  read_be16-write_be16, read_be32-write_be32, read_be64-write_be64, read_bytes-append,
  read_seq_num-write_seq_num,
}

module _ {ℓ} {B : Type ℓ} where
  pub step_need :
      (n : ℕ) (bytes : List ℕ) (f : Unit {0} → Cursor B) {o : Outcome (B × List ℕ)}
      → n ≤ length bytes
      → f tt bytes ≡ o
      → (need n >>= f) bytes ≡ o
  unfolding need
  step_need n bytes f h e = elim (Bool-cases (ltb (length bytes) n)) [
    | inl short ↦ absurd (omega tests)
    | inr enough ↦ rw enough e
  ]

  pub step_check :
      (test : Bool) (bytes : List ℕ) (f : Unit {0} → Cursor B) {o : Outcome (B × List ℕ)}
      → test ≡ true
      → f tt bytes ≡ o
      → (check test >>= f) bytes ≡ o
  unfolding check
  step_check test bytes f h e = rw h e

  pub step_be16 :
      (v : ℕ) (rest : List ℕ) (f : ℕ → Cursor B) {o : Outcome (B × List ℕ)}
      → v < 2 ^ 16
      → f v rest ≡ o
      → (read_be16 >>= f) (write_be16 v ++ rest) ≡ o
  step_be16 v rest f h e = rw (read_be16-write_be16 v rest h) e

  pub step_be32 :
      (v : ℕ) (rest : List ℕ) (f : ℕ → Cursor B) {o : Outcome (B × List ℕ)}
      → v < 2 ^ 32
      → f v rest ≡ o
      → (read_be32 >>= f) (write_be32 v ++ rest) ≡ o
  step_be32 v rest f h e = rw (read_be32-write_be32 v rest h) e

  pub step_be64 :
      (v : ℕ) (rest : List ℕ) (f : ℕ → Cursor B) {o : Outcome (B × List ℕ)}
      → v < 2 ^ 64
      → f v rest ≡ o
      → (read_be64 >>= f) (write_be64 v ++ rest) ≡ o
  step_be64 v rest f h e = rw (read_be64-write_be64 v rest h) e

  pub step_bytes :
      (taken rest : List ℕ) (n : ℕ) (f : List ℕ → Cursor B) {o : Outcome (B × List ℕ)}
      → n ≡ length taken
      → f taken rest ≡ o
      → (read_bytes n >>= f) (taken ++ rest) ≡ o
  step_bytes taken rest n f h e = rw (h, read_bytes-append taken rest) e

  pub step_seq_num :
      (n v : ℕ) (rest : List ℕ) (f : ℕ → Cursor B) {o : Outcome (B × List ℕ)}
      → v < 256 ^ n
      → v < 2 ^ 64
      → f v rest ≡ o
      → (read_seq_num n >>= f) (write_seq_num v n ++ rest) ≡ o
  step_seq_num n v rest f h k e = rw (read_seq_num-write_seq_num n v rest h k) e
