-- ===== src/Messages/Decimal.antt =====
-- What std::format writes for an integer.
use cuda_autocompat.Base.{
  ℕ, zero, suc, ◌+◌, ◌-◌, ◌*◌, ◌/◌, ◌%◌, ◌<◌, ◌≡◌, refl, sym, ap, ◌∙◌, false, [], ◌∷◌, ◌++◌,
  if◌then◌else◌, ◌==◌, ltb, Bytes, arith, Bool-cases, inl, inr,
}
use cuda_autocompat.Base.Int.{ℤ, pos, negsuc}

-- One unit of fuel for each digit.
unfoldable pub digits : ℕ → ℕ → Bytes
digits zero n = []
digits (suc fuel) n =
    let rest = digits fuel (n / 10) in
    let last = (b'0' + n % 10) ∷ [] in if ltb n 10 then last else rest ++ last

abbrev pub format_nat : ℕ → Bytes
format_nat n = digits (suc n) n

unfoldable pub format_int : ℤ → Bytes
unfolding digits
format_int (pos n) = format_nat n
format_int (negsuc n) = b'-' ∷ format_nat (suc n)

-- The value of decimal digits.
unfoldable pub value_from : ℕ → Bytes → ℕ
value_from n [] = n
value_from n (c ∷ s) = value_from (n * 10 + (c - b'0')) s

value_from-append : (n : ℕ) (s t : Bytes) → value_from n (s ++ t) ≡ value_from (value_from n s) t
unfolding value_from
value_from-append n [] t = refl
value_from-append n (c ∷ s) t = value_from-append (n * 10 + (c - b'0')) s t

value_from-digits : (fuel n : ℕ) → n < fuel → value_from 0 (digits fuel n) ≡ n
unfolding value_from digits
value_from-digits zero n h = absurd (omega (arith, h))
value_from-digits (suc fuel) n h = elim (Bool-cases (ltb n 10)) [
  | inl small ↦ rw small (ground arith)
  | inr large ↦
      let smaller : n / 10 < fuel = ground arith in
      rw
        (
          large,
          value_from-append 0 (digits fuel (n / 10)) ((b'0' + n % 10) ∷ []),
          value_from-digits fuel (n / 10) smaller,
        )
        (omega arith)
]

-- A text of digits, and a minus sign in front of them.
abbrev pub value : Bytes → ℤ
value [] = pos 0
value (c ∷ s) = if c == b'-' then negsuc (value_from 0 s - 1) else pos (value_from 0 (c ∷ s))

starts_with_digit :
    (fuel n : ℕ)
    → n < fuel
    → (c : ℕ) × (s : Bytes) × (digits fuel n ≡ c ∷ s) × ((c == b'-') ≡ false)
unfolding digits
starts_with_digit zero n h = absurd (omega (arith, h))
starts_with_digit (suc fuel) n h = elim (Bool-cases (ltb n 10)) [
  | inl small ↦ (b'0' + n % 10, [], rw small refl, ground arith)
  | inr large ↦
      let smaller : n / 10 < fuel = ground arith in
      let (c, s, e, no_sign) = starts_with_digit fuel (n / 10) smaller in
      (c, s ++ (b'0' + n % 10) ∷ [], rw (large, e) refl, no_sign)
]

-- What is written for an integer reads back as that integer, whatever its size.
pub value-format_int : (z : ℤ) → value (format_int z) ≡ z
unfolding format_int
value-format_int (pos n) =
    let (c, s, e, no_sign) = starts_with_digit (suc n) n (omega arith) in
    let same : value_from 0 (c ∷ s) ≡ n =
      ap (value_from 0) (sym e) ∙ value_from-digits (suc n) n (omega arith) in
    rw (e, no_sign) (ap pos same)
value-format_int (negsuc n) =
    let same : value_from 0 (digits (suc (suc n)) (suc n)) ≡ suc n =
      value_from-digits (suc (suc n)) (suc n) (omega arith) in
    let less : suc n - 1 ≡ n = omega arith in rw (same, less) refl
