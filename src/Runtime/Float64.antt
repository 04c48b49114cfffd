-- ===== src/Runtime/Float64.antt =====
-- `float64`: an abstract type with the operations that the services use. What the theorems need of
-- IEEE 754 arithmetic is a hypothesis.
use promo_collection.Prelude.{
  ℕ, ◌+◌, ◌≤◌, ◌^◌, ◌≡◌, ◌⊎◌, String, Bool, true, ℤ, pos, ◌+ℤ◌, ◌-ℤ◌, leb_ℤ,
}
use promo_collection.Prelude.Int.{pos_part, neg_part}

pub record Float64 (F : Type 0) : Type 0 where
  pub of_int : ℤ → F
  pub add : F → F → F
  pub sub : F → F → F
  pub mul : F → F → F
  pub div : F → F → F
  pub floor : F → F
  -- `math.Min`
  pub min : F → F → F
  pub eq : F → F → Bool
  pub lt : F → F → Bool
  pub le : F → F → Bool
  -- `fmt.Sprintf` with the number of decimals given
  pub format : ℕ → F → String

-- The zero value of a `float64`.
abbrev pub zero : {F : Type 0} → Float64 F → F
zero d = d.of_int (pos 0)

-- NaN is the value that is not equal to itself; the others are ordered, and `math.Min` takes one of
-- its arguments.
pub record IsOrdered {F : Type 0} (d : Float64 F) : Type 0 where
  pub trichotomy :
      (x y : F)
      → d.eq x x ≡ true
      → d.eq y y ≡ true
      → (d.lt x y ≡ true) ⊎ (d.eq x y ≡ true) ⊎ (d.lt y x ≡ true)
  pub min_left : (x y : F) → d.lt x y ≡ true → d.min x y ≡ x
  pub min_right : (x y : F) → d.lt y x ≡ true → d.min x y ≡ y
  pub min_eq : (x y : F) → d.eq x y ≡ true → (d.min x y ≡ x) ⊎ (d.min x y ≡ y)

-- Integers up to 2^53 are represented, and subtracted and compared, exactly.
abbrev pub Fits : ℤ → Type 0
Fits a = pos_part a + neg_part a ≤ 2 ^ 53

pub record IsExact {F : Type 0} (d : Float64 F) : Type 0 where
  pub add_exact :
      (a b : ℤ)
      → Fits a
      → Fits b
      → Fits (a +ℤ b)
      → d.add (d.of_int a) (d.of_int b) ≡ d.of_int (a +ℤ b)
  pub sub_exact :
      (a b : ℤ)
      → Fits a
      → Fits b
      → Fits (a -ℤ b)
      → d.sub (d.of_int a) (d.of_int b) ≡ d.of_int (a -ℤ b)
  pub le_exact : (a b : ℤ) → Fits a → Fits b → d.le (d.of_int a) (d.of_int b) ≡ leb_ℤ a b
