-- ===== src/Promo/Collection/Finite.antt =====
-- The documents hold finite numbers, and so what `CollectionRules` computes from them is no NaN.
use mathlib.Core.Option.{some-injective}
use promo_collection.Prelude.{
  String, ◌≡◌, inl, inr, Bool, true, Option, none, some, List, [], ◌∷◌, ℤ, All, str_eq, Bool-cases,
}
use promo_collection.Runtime.{Error}
use promo_collection.Runtime.Returns.{
  Returns, Returns-pure, Returns-fail, Returns-bind, Returns-if, Returns-or_fail, Returns-wrapping,
}
use promo_collection.Promo.Schema.{Loans, UnpaidLoans, SystemLevelRules, PesoToDataConversion}
use promo_collection.Promo.Deps.{Deps}
use promo_collection.Promo.Repos
use promo_collection.Promo.Collection

module _ {F : Type 0} (IsFinite : F → Type 0) where
  abbrev pub FiniteLoan : Loans F → Type 0
  FiniteLoan l = IsFinite l.total_unpaid_loan × IsFinite l.conversion_rate

  abbrev pub FiniteRules : SystemLevelRules F → Type 0
  FiniteRules r =
      IsFinite r.max_data_collection_percent
      × All (λ c. IsFinite c.conversion_rate) r.peso_to_data_conversion_matrix

  -- `IsFinite` holds of integers and of the numbers in the stored documents, and a product of two
  -- such numbers is no NaN.
  pub record HasFinite {S B : Type 0} (d : Deps S F B) : Type 0 where
    pub of_int_finite : (n : ℤ) → IsFinite (d.float.of_int n)
    pub mul_number :
        (x y : F) → IsFinite x → IsFinite y → d.float.eq (d.float.mul x y) (d.float.mul x y) ≡ true
    pub rules_finite : (p : SystemLevelRules F → Bool) → Returns FiniteRules (d.rules.find_one p)
    pub loans_finite : (p : Loans F → Bool) → Returns FiniteLoan (d.loans.find_one p)

  rate_of-IsFinite :
      (kind : String) (cs : List (PesoToDataConversion F)) (x : F)
      → All (λ c. IsFinite c.conversion_rate) cs
      → Collection.rate_of kind cs ≡ some x
      → IsFinite x
  unfolding Collection.rate_of
  rate_of-IsFinite kind [] x h e = cc
  rate_of-IsFinite kind (c ∷ cs) x h e = elim (Bool-cases (str_eq c.loan_type kind)) [
    | inl hit ↦ rw (← some-injective _ _ (rw hit at e)) h.0
    | inr miss ↦ rate_of-IsFinite kind cs x h.1 (rw miss at e)
  ]

  module _ {S B : Type 0} (d : Deps S F B) (f : HasFinite d) where
    pub fetch_rules-FiniteRules :
        Returns FiniteRules (Repos.fetch_system_level_rules_configuration d)
    unfolding Repos.fetch_system_level_rules_configuration
    fetch_rules-FiniteRules = f.rules_finite _

    pub get_loan-FiniteLoan : (k : String) → Returns FiniteLoan (Repos.get_loan_by_msisdn d k)
    unfolding Repos.get_loan_by_msisdn
    get_loan-FiniteLoan k = f.loans_finite _

    -- The total is finite, and so is the rate of the loan that comes with it.
    abbrev pub FiniteTotal : Collection.UnpaidTotal F → Type 0
    FiniteTotal t = IsFinite t.total × IsFinite t.loan.conversion_rate

    updated-rate :
        (l : Loans F)
        → FiniteLoan l
        → (total : F)
        → Returns
            (λ x. IsFinite x.conversion_rate)
            (Repos.update_old_loan_document d
              (record l { total_unpaid_loan = total })
              l.conversion_rate
              l.education_period_timestamp
              l.loan_load_period_timestamp
              l.max_data_collection_percent
              l.min_collection_amount
              total)
    unfolding Repos.update_old_loan_document
    updated-rate l h total =
        Returns-bind (λ x. Unit {0}) _ _ (record { value = λ s a e. tt })
          (λ a p. Returns-pure _ h.1)

    total_from_unpaid-FiniteTotal :
        (l : Loans F) (u : UnpaidLoans) (e : Option Error)
        → FiniteLoan l
        → Returns FiniteTotal (Collection.total_from_unpaid d l u e)
    unfolding Collection.total_from_unpaid
    total_from_unpaid-FiniteTotal l u (some e) h = Returns-fail e
    total_from_unpaid-FiniteTotal l u none h = Returns-if _ _ _ (Returns-fail _) (
        Returns-bind (λ x. IsFinite x.conversion_rate) _ _
          (Returns-wrapping _ _ (updated-rate l h _))
          (λ x p. Returns-pure _ (f.of_int_finite _, p)))

    pub get_total_unpaid_loan-FiniteTotal :
        (l : Loans F) → FiniteLoan l → Returns FiniteTotal (Collection.get_total_unpaid_loan d l)
    unfolding Collection.get_total_unpaid_loan
    get_total_unpaid_loan-FiniteTotal l h =
        Returns-bind (λ x. Unit {0}) _ _ (record { value = λ s a e. tt })
          (λ a p. Returns-if _ _ _ (total_from_unpaid-FiniteTotal l a.0 a.1 h) (Returns-pure _ h))

    pub get_conversion_rate-IsFinite :
        (l : Loans F) (r : SystemLevelRules F)
        → IsFinite l.conversion_rate
        → FiniteRules r
        → Returns IsFinite (Collection.get_conversion_rate d l r)
    unfolding Collection.get_conversion_rate Collection.rate_from_matrix
    get_conversion_rate-IsFinite l r h q = Returns-if _ _ _ (Returns-pure _ h) (
        Returns-if _ _ _ (Returns-fail _) (
          Returns-bind (λ x. Unit {0}) _ _ (record { value = λ s a e. tt })
            (λ a p. Returns-or_fail _ _ (λ x e. rate_of-IsFinite _ _ x q.1 e))))
