-- ===== src/WorkerPool/Ids.antt =====
-- `formatID`: the decimal text of a uint64, written from the end of a buffer of 20 bytes.
use native.Mathlib.Nat.{pow-suc}
use poly_asian_data.Base.{
  ℕ, zero, suc, ◌+◌, ◌-◌, ◌*◌, ◌/◌, ◌%◌, ◌^◌, ◌≤◌, ◌<◌, ◌≡◌, List, [], ◌∷◌, Option, none, some,
  arith, ◌==◌, length, Bool-cases, inl, inr, if◌then◌else◌, ap, ◌∙◌,
}

-- The loop `for n > 0 { i--; buf[i] = digits[n%10]; n /= 10 }`. `i` is the place in the buffer, and
-- `none` is the index out of range that `buf[-1]` would be.
unfoldable pub write_digits : ℕ → ℕ → List ℕ → Option (List ℕ)
write_digits zero n out = if n == 0 then some out else none
write_digits (suc i) n out =
    let rest = write_digits i (n / 10) ((b'0' + n % 10) ∷ out) in if n == 0 then some out else rest

unfoldable pub format_id : ℕ → Option (List ℕ)
format_id n = if n == 0 then some (b'0' ∷ []) else write_digits 20 n []

-- The number that a text of decimal digits stands for.
pub value_from : ℕ → List ℕ → ℕ
value_from acc [] = acc
value_from acc (c ∷ cs) = value_from (acc * 10 + (c - b'0')) cs

-- What `write_digits` has left to write, in front of what it has written.
write_digits-value :
    (i n : ℕ) (out : List ℕ)
    → n < 10 ^ i
    → (text : List ℕ) × (write_digits i n out ≡ some text)
      × (value_from 0 text ≡ value_from n out)
      × (length text ≤ i + length out)
unfolding write_digits value_from
write_digits-value zero n out h =
    let none_left : n ≡ 0 = omega arith in (out, ground arith, ground arith, omega arith)
write_digits-value (suc i) n out h = elim (Bool-cases (n == 0)) [
  | inl e ↦ let none_left : n ≡ 0 = ground arith in (out, rw e, rw none_left, omega arith)
  | inr e ↦
      let (text, written, same, short) =
        write_digits-value i (n / 10) ((b'0' + n % 10) ∷ out) (omega (arith, pow-suc 10 i)) in
      let digit : n / 10 * 10 + (b'0' + n % 10 - b'0') ≡ n = omega arith in
      (text, rw e written, same ∙ ap (λ m. value_from m out) digit, omega arith)
]

-- For every uint64 the 20 bytes suffice, and the text written is a numeral of the number: no two
-- sequence numbers share an ID.
pub format_id-value :
    (n : ℕ)
    → n < 2 ^ 64
    → (text : List ℕ) × (format_id n ≡ some text) × (value_from 0 text ≡ n) × (length text ≤ 20)
unfolding format_id value_from
format_id-value n h = elim (Bool-cases (n == 0)) [
  | inl e ↦ (b'0' ∷ [], rw e, ground arith, omega arith)
  | inr e ↦
      let (text, written, same, short) = write_digits-value 20 n [] (omega arith) in
      (text, rw e written, same, omega arith)
]
