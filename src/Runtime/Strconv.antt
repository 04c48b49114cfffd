-- ===== src/Runtime/Strconv.antt =====
-- `strconv.Itoa` and `strconv.FormatInt` in base ten.
use Prim.Native.String.{String, ◌++◌}
use promo_collection.Prelude.{
  ℕ, zero, suc, ◌/◌, ◌%◌, List, [], ◌∷◌, none, some, ℤ, pos, negsuc, ◌==◌, get_elem?, ◌≡◌, refl,
  if◌then◌else◌,
}

abbrev numerals : List String
numerals = "0" ∷ "1" ∷ "2" ∷ "3" ∷ "4" ∷ "5" ∷ "6" ∷ "7" ∷ "8" ∷ "9" ∷ []

numeral : ℕ → String
numeral n = elim (get_elem? numerals (n % 10)) [ none ↦ "" | some t ↦ t ]

-- The digits of `n` before `rest`. The fuel counts the digits: an `int64` has at most 19.
digits_before : ℕ → ℕ → String → String
unfolding numeral
digits_before zero n rest = rest
digits_before (suc fuel) n rest =
    let more = digits_before fuel (n / 10) (numeral n ++ rest) in
    if n / 10 == 0 then numeral n ++ rest else more

unfoldable pub itoa : ℤ → String
unfolding digits_before
itoa (pos n) = digits_before 20 n ""
itoa (negsuc n) = "-" ++ digits_before 20 (suc n) ""

itoa_runs : itoa (pos 639171234567) ++ itoa (negsuc 49) ++ itoa (pos 0) ≡ "639171234567-500"
unfolding itoa
itoa_runs = refl
