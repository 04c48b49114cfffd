-- ===== src/Promo/Laws.antt =====
-- What the theorems about promo-collection assume of its surroundings, as seen through an
-- observation: for one subscriber the number of in-progress entries, and the requests that have been
-- sent to the worker.
use promo_collection.Prelude.{Bool, String, ℕ, ◌+◌, ◌-◌, ◌≡◌, List, [], ◌∷◌, ◌++◌, str_eq}
use promo_collection.Runtime.{Outcome, ok, err, panic}
use promo_collection.Runtime.Keeps.{Keeps}
use promo_collection.Driver
use promo_collection.Promo.Schema.{CollectionTransactionsInProgress}
use promo_collection.Promo.Deps.{Deps}

-- Nothing that is done to the collection shows in the observation.
pub record Leaves {S T O : Type 0} (view : S → O) (c : Driver.Collection S T) : Type 0 where
  pub find_kept : (p : T → Bool) → Keeps view (c.find_one p)
  pub insert_kept : (t : T) → Keeps view (c.insert_one t)
  pub update_kept : (p : T → Bool) (f : T → T) → Keeps view (c.update_one p f)
  pub delete_kept : (p : T → Bool) → Keeps view (c.delete_one p)

-- What the rest of the service does outside of the in-progress entries and the worker's topic does
-- not show in the observation.
pub record Quiet {S F B O : Type 0} (d : Deps S F B) (view : S → O) : Type 0 where
  pub now_kept : Keeps view d.now
  pub rules_left : Leaves view d.rules
  pub loans_left : Leaves view d.loans
  pub unpaid_loans_left : Leaves view d.unpaid_loans
  pub loan_products_left : Leaves view d.loan_products
  pub messages_left : Leaves view d.messages
  pub whitelist_left : Leaves view d.whitelist
  pub get_kept : (k : String) → Keeps view (d.redis.get k)
  pub set_kept : (k : String) (b : B) (t : ℕ) → Keeps view (d.redis.set k b t)
  pub del_kept : (k : String) → Keeps view (d.redis.del k)
  pub notified_kept : (b : B) → Keeps view (d.notification_topic.send b)
  pub find_kept :
      (p : CollectionTransactionsInProgress → Bool) → Keeps view (d.in_progress.find_one p)

-- A write changes the observation by `f` if it succeeds, and not at all otherwise.
abbrev pub Applied : {A O : Type 0} → (O → O) → O → Outcome A → O → Type 0
Applied f v (ok a) u = u ≡ f v
Applied f v (err e) u = u ≡ v
Applied f v panic u = u ≡ v

-- For one subscriber: the in-progress entries, and the requests sent to the worker.
abbrev pub Seen : Type 0 → Type 0
Seen B = ℕ × List B

-- `view` observes the entries of the subscriber `k` and the requests sent: inserting an entry and
-- sending show, deleting an entry shows and does not fail, and nothing else shows.
pub record Observes {S F B : Type 0} (d : Deps S F B) (k : String) (view : S → Seen B)
    : Type 0 where
  pub quiet : Quiet d view
  pub inserted :
      (t : CollectionTransactionsInProgress)
      → t.msisdn ≡ k
      → (s : S)
      → let (r, s') = d.in_progress.insert_one t s in
        Applied (λ v. (v.0 + 1, v.1)) (view s) r (view s')
  pub deleted :
      (s : S)
      → let (r, s') = d.in_progress.delete_one (λ t. str_eq t.msisdn k) s in
        (r ≡ ok tt) × (view s' ≡ ((view s).0 - 1, (view s).1))
  pub sent :
      (b : B) (s : S)
      → let (r, s') = d.worker_topic.send b s in
        Applied (λ v. (v.0, v.1 ++ (b ∷ []))) (view s) r (view s')
