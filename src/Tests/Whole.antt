-- ===== src/Tests/Whole.antt =====
-- Integers in the place of `float64`: they meet what the theorems assume of its order and of exact
-- arithmetic. Division rounds down and is used on amounts of no negative sign.
use promo_collection.Prelude.{
  ◌+◌, ◌*◌, ◌/◌, ◌≡◌, refl, true, ℤ, pos, ◌+ℤ◌, ◌-ℤ◌, leb_ℤ, ltb_ℤ, eqb_ℤ, if◌then◌else◌, arith,
}
use promo_collection.Prelude.Int.{sub_ℕ, pos_part, neg_part}
use promo_collection.Runtime.Strconv.{itoa}
use promo_collection.Runtime.Float64.{Float64, IsOrdered, IsExact}

abbrev mul : ℤ → ℤ → ℤ
mul a b =
    sub_ℕ (pos_part a * pos_part b + neg_part a * neg_part b)
      (pos_part a * neg_part b + neg_part a * pos_part b)

abbrev min : ℤ → ℤ → ℤ
min a b = if ltb_ℤ a b then a else b

abbrev pub whole : Float64 ℤ
whole = record {
  of_int = λ n. n;
  add = ◌+ℤ◌;
  sub = ◌-ℤ◌;
  mul = mul;
  div = λ a b. pos (pos_part a / pos_part b);
  floor = λ a. a;
  min = min;
  eq = eqb_ℤ;
  lt = ltb_ℤ;
  le = leb_ℤ;
  format = λ n a. itoa a;
}

pub eqb_ℤ_refl : (x : ℤ) → eqb_ℤ x x ≡ true
eqb_ℤ_refl x = ground arith

pub whole-IsOrdered : IsOrdered whole
whole-IsOrdered = record {
  trichotomy = λ x y p q. ground arith;
  min_left = λ x y h. rw h;
  min_right = λ x y h. ground arith;
  min_eq = λ x y h. ground arith;
}

pub whole-IsExact : IsExact whole
whole-IsExact = record {
  add_exact = λ a b p q r. refl;
  sub_exact = λ a b p q r. refl;
  le_exact = λ a b p q. refl;
}
