-- ===== src/Promo/Rules/Lifecycle.antt =====
-- The life of the in-progress entry through `CheckBusinessLevelRulesForPromoCollection`.
use promo_collection.Prelude.{
  String, ◌+◌, ◌-◌, ◌≡◌, refl, ◌⊎◌, inl, inr, Bool, true, false, Option, none, some, [], ◌∷◌, ◌++◌,
  arith,
}
use promo_collection.Runtime.{Outcome, ok, err, panic, deferred_result}
use promo_collection.Runtime.Float64.{IsOrdered}
use promo_collection.Runtime.Keeps.{
  Ends, Ends-frame, Ends-bind, Ends-pure, Ends-if, Ends-defer, Ends-weaken,
}
use promo_collection.Runtime.Strconv.{itoa}
use promo_collection.Promo.Schema.{
  CollectionTransactionsInProgress, PromoEventMessage, PublishToWorkerMsgFormat, Loans,
}
use promo_collection.Promo.Deps.{Deps}
use promo_collection.Promo.Repos.{create_entry}
use promo_collection.Promo.Laws.{Seen, Observes, Applied}
use promo_collection.Promo.Frames
use promo_collection.Promo.Deduction.Settles.{Settled, Requested, delete_entry-Ends}
use promo_collection.Promo.Collection.Finite.{HasFinite}
use promo_collection.Promo.Collection.Settles.{collection_rules-Settled}
use promo_collection.Promo.Rules

module _ {S F B : Type 0} (d : Deps S F B) (IsFinite : F → Type 0) (ordered : IsOrdered d.float)
    (finite : HasFinite IsFinite d) (k : String) {view : S → Seen B} (o : Observes d k view) where
  -- How the part that runs with the entry in place ends.
  abbrev Guarded : Seen B → Outcome Bool → Seen B → Type 0
  Guarded v (ok true) u = (u ≡ (v.0 - 1, v.1)) ⊎ Requested d k v u
  Guarded v (ok false) u = u ≡ v
  Guarded v (err e) u = u ≡ v
  Guarded v panic u = u ≡ v

  -- `u` is `v` with an entry and a request about the subscriber more.
  abbrev pub Handed : Seen B → Seen B → Type 0
  Handed v u =
      (m : PublishToWorkerMsgFormat F) × (b : B) × (d.worker_codec.marshal m ≡ some b)
      × (m.msisdn ≡ k)
      × (u ≡ (v.0 + 1, v.1 ++ (b ∷ [])))

  abbrev pub Checked : Seen B → Outcome Bool → Seen B → Type 0
  Checked v (ok true) u = (u ≡ v) ⊎ Handed v u
  Checked v (ok false) u = u ≡ v
  Checked v (err e) u = u ≡ v
  Checked v panic u = u ≡ v

  module _ (trace : String) (payload : PromoEventMessage) (h : itoa payload.msisdn ≡ k) where
    collect-Guarded : (v : Seen B) → Ends view v (Rules.collect d trace payload) (Guarded v)
    unfolding Rules.collect
    collect-Guarded v =
        Ends-bind (Settled d k v) _ _
          (collection_rules-Settled d IsFinite ordered finite k o trace payload v h)
          (λ a u x. Ends-pure true x) (λ e u x. x) (λ u x. x)

    old_loan_flow-Guarded :
        (v : Seen B) (l : Loans F)
        → Ends view v (Rules.old_loan_flow d trace payload k l) (Guarded v)
    unfolding Rules.old_loan_flow
    old_loan_flow-Guarded v l =
        Ends-frame _ _ (Frames.is_msisdn_whitelisted-Keeps d o.quiet k)
          (λ w. Ends-if _ _ _ (Ends-pure false refl) (
            Ends-frame _ _ (Frames.process_old_loan-Keeps d o.quiet k l)
              (λ p. Ends-if _ _ _ (Ends-pure false refl) (collect-Guarded v)) (λ e. refl) refl))
          (λ e. refl) refl

    new_loan_flow-Guarded :
        (v : Seen B) (l : Loans F)
        → Ends view v (Rules.new_loan_flow d trace payload k l) (Guarded v)
    unfolding Rules.new_loan_flow
    new_loan_flow-Guarded v l =
        Ends-frame _ _ (Frames.time_now-Keeps d o.quiet)
          (λ now.
            Ends-if _ _ _
              (Ends-frame _ _ (Frames.create_skipping_cache_entry-Keeps d o.quiet l k)
                (λ a. Ends-pure false refl) (λ e. refl) refl)
              (collect-Guarded v))
          (λ e. refl) refl

    loan_flow-Guarded :
        (v : Seen B) (l : Option (Loans F))
        → Ends view v (Rules.loan_flow d trace payload k l) (Guarded v)
    unfolding Rules.loan_flow
    loan_flow-Guarded v none = Ends-pure false refl
    loan_flow-Guarded v (some l) =
        Ends-if _ _ _ (new_loan_flow-Guarded v l) (old_loan_flow-Guarded v l)

    guarded_rules-Guarded :
        (v : Seen B) → Ends view v (Rules.guarded_rules d trace payload k) (Guarded v)
    unfolding Rules.guarded_rules
    guarded_rules-Guarded v =
        Ends-frame _ _ (Frames.check_redis-Keeps d o.quiet k)
          (λ active. Ends-if _ _ _ (Ends-pure false refl) (
            Ends-frame _ _ (Frames.get_active_loan-Keeps d o.quiet k) (loan_flow-Guarded v)
              (λ e. refl) refl))
          (λ e. refl) refl

    -- A deleted entry makes good for the created one.
    uncounted : (v u w : Seen B) → u ≡ (v.0 + 1, v.1) → w ≡ (u.0 - 1, u.1) → w ≡ v
    uncounted v u w e f = ground arith

    counted : (v u : Seen B) → u ≡ (v.0 + 1 - 1, v.1) → u ≡ v
    counted v u e = ground arith

    clean_up-Checked :
        (v : Seen B) (r : Outcome Bool) (u : Seen B)
        → Guarded (v.0 + 1, v.1) r u
        → Ends view u (Rules.clean_up d k r) (λ q w. Checked v (deferred_result r q) w)
    unfolding Rules.clean_up
    clean_up-Checked v (ok true) u (inl e) = Ends-pure tt (inl (counted v u e))
    clean_up-Checked v (ok true) u (inr m) = Ends-pure tt (inr m)
    clean_up-Checked v (ok false) u g =
        Ends-weaken _ _ (delete_entry-Ends d k o u) (λ q w x. rw x.0 (uncounted v u w g x.1))
    clean_up-Checked v (err e) u g =
        Ends-weaken _ _ (delete_entry-Ends d k o u) (λ q w x. rw x.0 (uncounted v u w g x.1))
    clean_up-Checked v panic u g =
        Ends-weaken _ _ (delete_entry-Ends d k o u) (λ q w x. rw x.0 (uncounted v u w g x.1))

    insert-Ends :
        (v : Seen B) (t : CollectionTransactionsInProgress)
        → t.msisdn ≡ k
        → Ends view v (d.in_progress.insert_one t) (Applied (λ w. (w.0 + 1, w.1)) v)
    insert-Ends v t e = record { from = λ s w. rw w at (o.inserted t e s) }

    create_entry-Ends :
        (v : Seen B) → Ends view v (create_entry d k) (Applied (λ w. (w.0 + 1, w.1)) v)
    unfolding create_entry
    create_entry-Ends v =
        Ends-frame _ _ (Frames.time_now-Keeps d o.quiet)
          (λ now.
            Ends-bind (Applied (λ w. (w.0 + 1, w.1)) v) _ _ (insert-Ends v _ refl)
              (λ a u x. Ends-pure tt x) (λ e u x. x) (λ u x. x))
          (λ e. refl) refl

    pub check-Checked :
        (v : Seen B) → Ends view v (Rules.check_business_level_rules d trace payload k) (Checked v)
    unfolding Rules.check_business_level_rules
    check-Checked v =
        Ends-frame _ _ (Frames.is_enabled-Keeps d o.quiet)
          (λ enabled. Ends-if _ _ _ (Ends-pure false refl) (
            Ends-frame _ _ (Frames.check_entry_exists-Keeps d o.quiet k)
              (λ exists. Ends-if _ _ _ (Ends-pure false refl) (
                Ends-bind (Applied (λ w. (w.0 + 1, w.1)) v) _ _ (create_entry-Ends v)
                  (λ a u x. rw x (
                    Ends-defer (Guarded (v.0 + 1, v.1)) _ _ (guarded_rules-Guarded _)
                      (clean_up-Checked v)))
                  (λ e u x. x) (λ u x. x)))
              (λ e. refl) refl))
          (λ e. refl) refl

  -- Where deleting an entry does not fail: after the check of the subscriber of the payload the
  -- number of in-progress entries and the requests sent are what they were, or the result is
  -- `true, nil` and exactly one entry and one request about the subscriber, in the worker's
  -- encoding, have been added. So it is also after an error or a panic.
  pub check_business_level_rules-Checked :
      (trace : String) (payload : PromoEventMessage)
      → itoa payload.msisdn ≡ k
      → (s : S)
      → let (r, s') = Rules.check_business_level_rules d trace payload k s in
        Checked (view s) r (view s')
  check_business_level_rules-Checked trace payload h s =
      (check-Checked trace payload h (view s)).from s refl
