-- ===== src/Promo/Rules/Exclusion.antt =====
-- A subscriber with an in-progress entry is left alone.
use promo_collection.Prelude.{String, ◌<◌, ◌≡◌, ◌≢◌, refl, ◌∙◌, Bool, true, false, str_eq, arith}
use promo_collection.Runtime.{
  Outcome, ok, err, panic, Error, is_no_documents, bind_outcome, attempted, ◌>>=◌,
}
use promo_collection.Runtime.Keeps.{Ends, Ends-frame, Ends-bind, Ends-pure, Ends-if}
use promo_collection.Promo.Schema.{PromoEventMessage}
use promo_collection.Promo.Deps.{Deps}
use promo_collection.Promo.Repos.{check_entry_exists, found_result}
use promo_collection.Promo.Laws.{Seen, Observes}
use promo_collection.Promo.Frames
use promo_collection.Promo.Rules

-- An entry that is counted is found: the lookup does not say that there is none.
pub record Finds {S F B : Type 0} (d : Deps S F B) (k : String) (view : S → Seen B) : Type 0 where
  pub not_missing :
      (s : S) (e : Error)
      → 0 < (view s).0
      → (d.in_progress.find_one (λ t. str_eq t.msisdn k) s).0 ≡ err e
      → is_no_documents e ≡ false

found-not-false :
    {S T : Type 0} (r : Outcome T) (s : S)
    → ((e : Error) → r ≡ err e → is_no_documents e ≡ false)
    → (bind_outcome (attempted r) (found_result {S = S}) s).0 ≢ ok false
unfolding found_result ◌>>=◌
found-not-false (ok t) s h e = cc
found-not-false (err x) s h e = ground (arith, h x refl)
found-not-false panic s h e = cc

module _ {S F B : Type 0} (d : Deps S F B) (k : String) {view : S → Seen B} (o : Observes d k view)
    (finds : Finds d k view) where
  -- Nothing has changed, and the subscriber was not handled.
  abbrev pub LeftAlone : Seen B → Outcome Bool → Seen B → Type 0
  LeftAlone v r u = (u ≡ v) × (r ≢ ok true)

  exists-Ends :
      (v : Seen B)
      → 0 < v.0
      → Ends view v (check_entry_exists d k) (λ r u. (u ≡ v) × (r ≢ ok false))
  unfolding check_entry_exists ◌>>=◌
  exists-Ends v h = record {
    from = λ s e. (
      (Frames.check_entry_exists-Keeps d o.quiet k).at s ∙ e,
      found-not-false (d.in_progress.find_one (λ t. str_eq t.msisdn k) s).0 _
          (λ x f. finds.not_missing s x (rw e h) f),
    );
  }

  left_alone :
      (trace : String) (payload : PromoEventMessage) (v : Seen B)
      → 0 < v.0
      → Ends view v (Rules.check_business_level_rules d trace payload k) (LeftAlone v)
  unfolding Rules.check_business_level_rules
  left_alone trace payload v h =
      Ends-frame _ _ (Frames.is_enabled-Keeps d o.quiet)
        (λ enabled. Ends-if _ _ _ (Ends-pure false (refl, (λ e. cc))) (
          Ends-bind (λ r u. (u ≡ v) × (r ≢ ok false)) _ _ (exists-Ends v h)
            (elim [
              | true ↦ λ u x. Ends-pure false (x.0, (λ e. cc))
              | false ↦ λ u x. absurd (x.1 refl)
            ])
            (λ e u x. (x.0, (λ e. cc))) (λ u x. (x.0, (λ e. cc)))))
        (λ e. (refl, (λ e. cc))) (refl, (λ e. cc))

  -- While a subscriber has an in-progress entry, the check of the business rules neither adds nor
  -- deletes an entry, sends no request, and does not return `true, nil`.
  pub check_business_level_rules-LeftAlone :
      (trace : String) (payload : PromoEventMessage) (s : S)
      → 0 < (view s).0
      → let (r, s') = Rules.check_business_level_rules d trace payload k s in
        LeftAlone (view s) r (view s')
  check_business_level_rules-LeftAlone trace payload s h =
      (left_alone trace payload (view s) h).from s refl
