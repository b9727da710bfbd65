-- ===== src/Actors/Fix/Tests.antt =====
-- The theorem about the symbols of src/actors/FIXAcceptorActor.cpp with decimal conversions.
use eu_nex.Common.{
  ℕ, zero, suc, ◌+◌, ◌-◌, ◌*◌, ◌/◌, ◌%◌, ◌<◌, ◌≤◌, ◌≡◌, refl, [], ◌∷◌, ◌++◌, arith, ltb,
  if◌then◌else◌, Bool-cases, inl, inr,
}
use eu_nex.Common.Int.{pos}
use eu_nex.Actors.Fix.{Text, Conversions, symbol_from_string, symbol_to_string}
use eu_nex.Actors.Fix.Symbols.{StartsWithDigit, IsDecimal, symbol_from_string-symbol_to_string}

-- The digits of `n`, at most `fuel` and one more.
unfoldable pub digits : ℕ → ℕ → Text
digits zero n = (48 + n % 10) ∷ []
digits (suc fuel) n =
    let rest = digits fuel (n / 10) in
    if ltb n 10 then (48 + n) ∷ [] else rest ++ (48 + n % 10) ∷ []

unfoldable pub read : ℕ → Text → ℕ
read acc [] = acc
read acc (c ∷ cs) = read (acc * 10 + (c - 48)) cs

read-append : (acc : ℕ) (t : Text) (c : ℕ) → read acc (t ++ c ∷ []) ≡ read acc t * 10 + (c - 48)
unfolding read
read-append acc [] c = refl
read-append acc (d ∷ t) c = read-append (acc * 10 + (d - 48)) t c

read-digits : (fuel n : ℕ) → n ≤ fuel → read 0 (digits fuel n) ≡ n
unfolding read digits
read-digits zero n h = omega arith
read-digits (suc fuel) n h = elim (Bool-cases (ltb n 10)) [
  | inl small ↦ rw small (omega arith)
  | inr large ↦
      let rest = read-digits fuel (n / 10) (ground arith) in
      rw (large, read-append 0 (digits fuel (n / 10)) (48 + n % 10), rest) (omega arith)
]

append_digit : (t : Text) (c : ℕ) → StartsWithDigit t → c < 58 → StartsWithDigit (t ++ c ∷ [])
append_digit [] c h k = k
append_digit (d ∷ t) c h k = h

digits-StartsWithDigit : (fuel n : ℕ) → StartsWithDigit (digits fuel n)
unfolding digits
digits-StartsWithDigit zero n = omega arith
digits-StartsWithDigit (suc fuel) n = elim (Bool-cases (ltb n 10)) [
  | inl small ↦ rw small (ground arith)
  | inr large ↦ rw large (
      append_digit (digits fuel (n / 10)) (48 + n % 10) (digits-StartsWithDigit fuel (n / 10))
        (omega arith))
]

-- Prices play no part here.
abbrev pub decimal : Conversions
decimal = record {
  strtoull = read 0;
  to_string = λ n. digits n n;
  parse_price = λ t. pos 0;
  print_price = λ p. [];
}

decimal-IsDecimal : IsDecimal decimal
decimal-IsDecimal = record {
  reads = λ n h. read-digits n n (omega arith);
  digit = λ n. digits-StartsWithDigit n n;
}

symbol_from_string-symbol_to_string_example :
    symbol_from_string decimal (symbol_to_string decimal 123) ≡ 123
symbol_from_string-symbol_to_string_example =
    symbol_from_string-symbol_to_string decimal 123 decimal-IsDecimal (omega arith)
