-- ===== src/Promo/Deduction/Decides.antt =====
-- The amount to deduct never exceeds what is owed, so one of the two branches of
-- `DataToBeDeductedCalculation` is always taken.
use promo_collection.Prelude.{◌≡◌, ◌⊎◌, inl, inr, true}
use promo_collection.Runtime.Float64.{Float64, IsOrdered}
use promo_collection.Promo.Deduction.{compute_max_deductible_amount}

-- Where neither product is NaN, the deductible amount is the data that is owed, or less.
pub compute_max_deductible_amount_bound :
    {F : Type 0} (f : Float64 F) (laws : IsOrdered f) (percent allocated balance rate : F)
    → f.eq (f.mul percent allocated) (f.mul percent allocated) ≡ true
    → f.eq (f.mul balance rate) (f.mul balance rate) ≡ true
    → let amount = compute_max_deductible_amount f percent allocated balance rate in
      (f.eq amount (f.mul balance rate) ≡ true) ⊎ (f.lt amount (f.mul balance rate) ≡ true)
unfolding compute_max_deductible_amount
compute_max_deductible_amount_bound f laws percent allocated balance rate p q =
    let x = f.mul percent allocated in
    let y = f.mul balance rate in
    elim (laws.trichotomy x y p q) [
      | inl below ↦ inr (rw (laws.min_left x y below) below)
      | inr rest ↦ elim rest [
        | inl same ↦ elim (laws.min_eq x y same) [ inl e ↦ inl (rw e same) | inr e ↦ inl (rw e q) ]
        | inr above ↦ inl (rw (laws.min_right x y above) q)
      ]
    ]
