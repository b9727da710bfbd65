-- ===== src/Actors/Fix/Symbols.antt =====
-- The symbols and the requests of src/actors/FIXAcceptorActor.cpp.
use eu_nex.Common.{
  ℕ, ◌%◌, ◌^◌, ◌<◌, ◌≤◌, ◌≡◌, refl, true, [], ◌∷◌, arith, ◌==◌, ◌||◌, ltb, Bool-cases, inl, inr,
}
use eu_nex.Actors.Fix.{Text, Conversions, symbol_from_string, symbol_to_string}

abbrev pub StartsWithDigit : Text → Type 0
StartsWithDigit [] = Unit
StartsWithDigit (c ∷ cs) = c < 58

-- The texts of numbers are made of digits, so the first character is below 58, and reading back a
-- text gives the number.
pub record IsDecimal (std : Conversions) : Type 0 where
  pub reads : (n : ℕ) → n < 2 ^ 32 → std.strtoull (std.to_string n) ≡ n
  pub digit : (n : ℕ) → StartsWithDigit (std.to_string n)

symbol_from_string-digits :
    (std : Conversions) (t : Text)
    → StartsWithDigit t
    → symbol_from_string std t ≡ std.strtoull t % 2 ^ 32
unfolding symbol_from_string
symbol_from_string-digits std [] h = refl
symbol_from_string-digits std (c ∷ cs) h = ground arith

symbol_to_string-mapped :
    (std : Conversions) (idx : ℕ)
    → 1 ≤ idx
    → idx ≤ 7
    → symbol_from_string std (symbol_to_string std idx) ≡ idx
unfolding symbol_from_string symbol_to_string
symbol_to_string-mapped std idx h k = ground arith

symbol_to_string-other :
    (std : Conversions) (idx : ℕ)
    → ltb 7 idx || (idx == 0) ≡ true
    → symbol_to_string std idx ≡ std.to_string idx
unfolding symbol_to_string
symbol_to_string-other std idx h = ground arith

-- If numbers are printed in digits and read back as what was printed, the name of each symbol
-- index is read back as that index.
pub symbol_from_string-symbol_to_string :
    (std : Conversions) (idx : ℕ)
    → IsDecimal std
    → idx < 2 ^ 32
    → symbol_from_string std (symbol_to_string std idx) ≡ idx
symbol_from_string-symbol_to_string std idx decimal h =
    elim (Bool-cases (ltb 7 idx || (idx == 0))) [
      | inl other ↦
          rw
            (
              symbol_to_string-other std idx other,
              symbol_from_string-digits std (std.to_string idx) (decimal.digit idx),
              decimal.reads idx h,
            )
            (omega arith)
      | inr mapped ↦ symbol_to_string-mapped std idx (ground arith) (ground arith)
    ]
