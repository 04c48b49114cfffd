-- ===== src/Worker/Requests/Redelivery.antt =====
-- A request that will be delivered again keeps its in-progress entry.
use promo_collection.Prelude.{
  ℕ, ◌≡◌, ◌≢◌, refl, ◌⊎◌, inl, inr, String, Bool, true, false, not, ◌&&◌, negsuc, Option, none,
  some, List, str_eq, eqb_ℤ,
}
use promo_collection.Runtime.{
  Outcome, ok, err, panic, Go, Error, message, pure, fail, crash, attempt, attempted, ◌>>=◌,
}
use promo_collection.Runtime.Keeps.{
  Ends, Ends-frame, Ends-pure, Ends-fail, Ends-if, Ends-bind, Keeps-attempt,
}
use promo_collection.Runtime.Returns.{
  Returns, Returns-pure, Returns-bind, Returns-Any, Returns-if, Any,
}
use promo_collection.Runtime.Unfailing.{Unfailing, unfailing_rules}
use promo_collection.Runtime.Time.{Time}
use promo_collection.Driver.{ObjectId}
use promo_collection.Worker.Schema.{
  PromoCollectionPublishedMessage, partial_collection_type, full_collection_type,
}
use promo_collection.Worker.Deps.{Deps}
use promo_collection.Worker.Failure
use promo_collection.Worker.Failure.{
  Downstream, Failure, api, plain, DecrementWalletSubscriptionError, Bucket, action_ack,
  action_ignore, is_non_api_error, insufficient_balance,
}
use promo_collection.Worker.Failure.Released.{
  Entries, Released, Ended, handler-Ends, serialize_collections-Keeps,
}
use promo_collection.Worker.Requests
use promo_collection.Worker.Requests.{
  Delivery, acked, nacked, untouched, Reply, failed, ignored, error_text,
}

-- The callback has returned: the message is acknowledged, or the entries are as they were.
abbrev pub Kept : ℕ → Outcome Delivery → ℕ → Type 0
Kept v (ok acked) u = Unit
Kept v (ok nacked) u = u ≡ v
Kept v (ok untouched) u = u ≡ v
Kept v (err e) u = Unit
Kept v panic u = Unit

-- The same of an action with its error, and of an error alone.
abbrev Actioned : ℕ → Outcome (String × Option Failure) → ℕ → Type 0
Actioned v (ok r) u = (Requests.handle_action_result r ≡ none) ⊎ (u ≡ v)
Actioned v (err e) u = Unit
Actioned v panic u = Unit

abbrev Replied : ℕ → Outcome (Option Reply) → ℕ → Type 0
Replied v (ok r) u = (r ≡ none) ⊎ (u ≡ v)
Replied v (err e) u = Unit
Replied v panic u = Unit

abbrev Checked : ℕ → Outcome (Unit {0}) → ℕ → Type 0
Checked v (ok t) u = Unit
Checked v (err e) u = (str_eq (error_text e) insufficient_balance ≡ false) ⊎ (u ≡ v)
Checked v panic u = Unit

Actioned-of :
    (v : ℕ) (r : Outcome (String × Option Failure)) (u : ℕ)
    → ((a : String × Option Failure) → r ≡ ok a → Requests.handle_action_result a ≡ none)
    → Actioned v r u
Actioned-of v (ok a) u h = inl (h a refl)
Actioned-of v (err e) u h = tt
Actioned-of v panic u h = tt

Checked-of :
    (v : ℕ) (r : Outcome (Unit {0})) (u : ℕ)
    → ((e : Error) → r ≡ err e → str_eq (error_text e) insufficient_balance ≡ false)
    → Checked v r u
Checked-of v (ok t) u h = tt
Checked-of v (err e) u h = inl (h e refl)
Checked-of v panic u h = tt

abbrev Attempted : {A : Type 0} → (Outcome A → ℕ → Type 0) → Outcome (A ⊎ Error) → ℕ → Type 0
Attempted P (ok (inl a)) u = P (ok a) u
Attempted P (ok (inr e)) u = P (err e) u
Attempted P (err e) u = Unit
Attempted P panic u = Unit

Attempted-of :
    {A : Type 0} (P : Outcome A → ℕ → Type 0) (r : Outcome A) (u : ℕ)
    → P r u
    → Attempted P (attempted r) u
Attempted-of P (ok a) u h = h
Attempted-of P (err e) u h = h
Attempted-of P panic u h = tt

module _ {S : Type 0} {view : S → ℕ} where
  Other-Ends :
      (v : ℕ) (m : Go S (Unit {0}))
      → ((s : S) (e : Error) → (m s).0 ≡ err e → str_eq (error_text e) insufficient_balance ≡ false)
      → Ends view v m (Checked v)
  Other-Ends v m h = record { from = λ s e. Checked-of v (m s).0 (view (m s).1) (h s) }

  -- It is acknowledged whatever happens.
  Acked-Ends :
      (v : ℕ) (m : Go S (String × Option Failure))
      → Returns (λ r. Requests.handle_action_result r ≡ none) m
      → Ends view v m (Actioned v)
  Acked-Ends v m h = record { from = λ s e. Actioned-of v (m s).0 (view (m s).1) (h.value s) }

  Unfailing-Ends : (v : ℕ) (m : Go S (Unit {0})) → Unfailing m → Ends view v m (Checked v)
  Unfailing-Ends v m n = Other-Ends v m (λ s e h. absurd (n.never s e h))

  crash-Ends : (v : ℕ) → Ends view v crash (Actioned v)
  unfolding ◌>>=◌
  crash-Ends v = record { from = λ s e. tt }

  -- An error that is looked at ends as it would have ended.
  Ends-Attempted :
      {A : Type 0} {v : ℕ} (P : Outcome A → ℕ → Type 0) (m : Go S A)
      → Ends view v m P
      → Ends view v (attempt m) (Attempted P)
  unfolding ◌>>=◌
  Ends-Attempted P m h = record { from = λ s e. Attempted-of P (m s).0 (view (m s).1) (h.from s e) }

some-none : {A : Type 0} {a : A} → some a ≢ none
some-none h = cc

-- No error of the handler that records a collection has the text of an insufficient balance.
abbrev pub OtherErrors :
    {S F : Type 0} → (PromoCollectionPublishedMessage F → Go S (Unit {0})) → Type 0
OtherErrors handler =
    (msg : _) (s : _) (e : Error)
    → (handler msg s).0 ≡ err e
    → str_eq (error_text e) insufficient_balance ≡ false

module _ {S F B : Type 0} (d : Deps S F B) (w : Downstream S F B) where
  ack_returned :
      (m : Go S (Unit {0}))
      → Returns
          (λ r. Requests.handle_action_result r ≡ none)
          (attempt m >>= λ r. pure (action_ack, Requests.failure_of d w r))
  unfolding Requests.handle_action_result
  ack_returned m = Returns-bind Any _ _ (Returns-Any _) (λ r h. Returns-pure _ refl)

  mark_sent-Unfailing :
      (id : ObjectId) (r : Unit {0} ⊎ Error) → Unfailing (Failure.mark_sent d w id r)
  unfolding Failure.mark_sent
  mark_sent-Unfailing id (inl t) = search unfailing_rules
  mark_sent-Unfailing id (inr e) = search unfailing_rules

  module _ {view : S → ℕ} (msg : PromoCollectionPublishedMessage F)
      (o : Entries d w msg.msisdn view) (partials : OtherErrors w.partial_success_handler)
      (fulls : OtherErrors w.full_success_handler) where
    action_of-Actioned :
        (v : ℕ) (r : Unit {0} ⊎ Error) (u : ℕ)
        → Attempted (Checked v) (ok r) u
        → Actioned v (ok (Requests.action_of d w r, Requests.failure_of d w r)) u
    unfolding Requests.handle_action_result
    action_of-Actioned v (inl t) u h = inl refl
    action_of-Actioned v (inr e) u (inl h) = inl (rw h refl)
    action_of-Actioned v (inr e) u (inr h) = inr h

    missing_bucket-Ends : (v : ℕ) → Ends view v (Failure.handle_missing_bucket d w msg) (Checked v)
    unfolding Failure.handle_missing_bucket Failure.publish_kafka_failure_if_configured
    missing_bucket-Ends v =
        Ends-frame _ _ (serialize_collections-Keeps d w o msg _ _ _)
          (λ c. Unfailing-Ends v _ (search (unfailing_rules, mark_sent-Unfailing))) (λ e. inr refl)
          tt

    success-Ends : (v : ℕ) → Ends view v (Failure.run_success_handler d w msg) (Checked v)
    unfolding Failure.run_success_handler
    success-Ends v =
        Ends-if (str_eq msg.collection_type partial_collection_type) (w.partial_success_handler msg)
          _ (Other-Ends v _ (λ s e h. partials msg s e h))
          (Ends-if (str_eq msg.collection_type full_collection_type) (w.full_success_handler msg)
            (pure tt) (Other-Ends v _ (λ s e h. fulls msg s e h)) (Ends-pure tt tt))

    balance-Ends :
        (v : ℕ) (b : Bucket) (amount : Option F)
        → Ends view v (Failure.balance_checked d w msg b amount) (Checked v)
    unfolding Failure.balance_checked
    balance-Ends v b none = missing_bucket-Ends v
    balance-Ends v b (some amount) =
        Ends-if (d.float.le msg.data_to_be_deducted _) (Failure.run_success_handler d w msg)
          (fail (message insufficient_balance)) (success-Ends v) (Ends-fail _ (inr refl))

    Checked-Ends :
        (v : ℕ) (b : Bucket) → Ends view v (Failure.check_and_process_balance d w msg b) (Checked v)
    unfolding Failure.check_and_process_balance
    Checked-Ends v b = balance-Ends v b _

    bucket-Ends :
        (v : ℕ) (b : Option Bucket) → Ends view v (Requests.process_bucket d w msg b) (Actioned v)
    unfolding Requests.process_bucket
    bucket-Ends v none = Acked-Ends v _ (ack_returned _)
    bucket-Ends v (some b) =
        Ends-bind (Attempted (Checked v)) _ _ (Ends-Attempted (Checked v) _ (Checked-Ends v b))
          (λ r u h. Ends-pure _ (action_of-Actioned v r u h)) (λ e u h. tt) (λ u h. tt)

    usage-Ends :
        (v : ℕ) (r : List Bucket ⊎ Error)
        → Ends view v (Requests.process_usage d w msg r) (Actioned v)
    unfolding Requests.process_usage
    usage-Ends v (inl buckets) = bucket-Ends v _
    usage-Ends v (inr e) = Acked-Ends v _ (ack_returned _)

    no_response-Ends : (v : ℕ) → Ends view v (Requests.handle_no_response_case d w msg) (Actioned v)
    unfolding Requests.handle_no_response_case
    no_response-Ends v =
        Ends-frame _ _ (Keeps-attempt _ (o.retrieve_kept _)) (λ r. usage-Ends v r) (λ e. tt) tt

    unknown_acked : Returns (λ a. a ≡ action_ack) (Failure.handle_unknown_or_non_api_error d w msg)
    unfolding Failure.handle_unknown_or_non_api_error
    unknown_acked = Returns-bind Any _ _ (Returns-Any _) (λ c h.
        Returns-bind Any _ _ (Returns-Any _) (λ x i. Returns-bind Any _ _ (Returns-Any _) (λ y j.
          Returns-if w.kafka_configured _ _
            (Returns-bind Any _ _ (Returns-Any _) (λ z k. Returns-pure _ refl))
            (Returns-pure _ refl))))

    released_action :
        (b : Bool) (v : ℕ) (a : String) (u : ℕ) (e : DecrementWalletSubscriptionError)
        → Ended b v a u
        → Actioned v (ok (a, some (api e))) u
    unfolding Requests.handle_action_result
    released_action true v a u e h = inr h.1
    released_action false v a u e h = inl (rw h.0 refl)

    decrement_error-Ends :
        (v : ℕ) (f : Failure) → Ends view v (Requests.handle_decrement_error d w msg f) (Actioned v)
    unfolding Requests.handle_decrement_error Requests.handle_action_result
    decrement_error-Ends v (plain x) = crash-Ends v
    decrement_error-Ends v (api e) =
        Ends-if (is_non_api_error e && not (eqb_ℤ e.status_code (negsuc 0))) _ _
          (Acked-Ends v _ (
            Returns-bind (λ a. a ≡ action_ack) _ _ unknown_acked
              (λ a h. Returns-pure _ (rw h refl))))
          (Ends-if (eqb_ℤ e.status_code (negsuc 0)) _ _ (no_response-Ends v) (
            Ends-bind (Released (Failure.is_redelivered d w e) v) _ _
              (handler-Ends d w o msg refl e v)
              (λ a u h. Ends-pure _ (released_action (Failure.is_redelivered d w e) v a u e h))
              (λ x u h. tt) (λ u h. tt)))

    decremented-Ends :
        (v : ℕ) (r : Unit {0} ⊎ Failure) → Ends view v (Requests.decremented d w msg r) (Actioned v)
    unfolding Requests.decremented
    decremented-Ends v (inl t) = Acked-Ends v _ (ack_returned _)
    decremented-Ends v (inr f) = decrement_error-Ends v f

    request_wallet-Ends : (v : ℕ) → Ends view v (Requests.request_wallet d w msg) (Actioned v)
    unfolding Requests.request_wallet
    request_wallet-Ends v =
        Ends-frame _ _ (o.decrement_kept _) (λ r. decremented-Ends v r) (λ e. tt) tt

  delivered :
      (v u : ℕ) (r : Option Reply) → (r ≡ none) ⊎ (u ≡ v) → Kept v (ok (Requests.delivery_of r)) u
  unfolding Requests.delivery_of
  delivered v u none h = tt
  delivered v u (some (failed f)) (inl e) = absurd (some-none e)
  delivered v u (some (failed f)) (inr e) = e
  delivered v u (some (ignored f)) (inl e) = absurd (some-none e)
  delivered v u (some (ignored f)) (inr e) = e

  module _ {view : S → ℕ} (partials : OtherErrors w.partial_success_handler)
      (fulls : OtherErrors w.full_success_handler) where
    event-Ends :
        (v : ℕ) (at : Time) (event : Option (PromoCollectionPublishedMessage F))
        → ((e : PromoCollectionPublishedMessage F) → event ≡ some e → Entries d w e.msisdn view)
        → Ends view v (Requests.handle_event d w at event) (Replied v)
    unfolding Requests.handle_event
    event-Ends v at none o = Ends-pure _ (inr refl)
    event-Ends v at (some event) o =
        Ends-if (Requests.is_valid event) _ _
          (Ends-bind (Actioned v) _ _
            (request_wallet-Ends (record event { publish_time = at }) (o event refl) partials fulls
              v)
            (λ r u h. Ends-pure _ h) (λ e u h. tt) (λ u h. tt))
          (Ends-pure _ (inr refl))

    consume-Ends :
        (v : ℕ) (bytes : B) (at : Time)
        → ((e : PromoCollectionPublishedMessage F)
            → w.decode bytes ≡ some e
            → Entries d w e.msisdn view)
        → Ends view v (Requests.consume d w bytes at) (Kept v)
    unfolding Requests.consume Requests.handle_promo_collection_message
    consume-Ends v bytes at o =
        Ends-bind (Replied v) _ _ (event-Ends v at (w.decode bytes) o)
          (λ r u h. Ends-pure _ (delivered v u r h)) (λ e u h. tt) (λ u h. tt)

  -- Where a delete does not fail and no success handler's error has the text of an insufficient
  -- balance: if the callback of the consumer returns, without a panic or an error, and has not
  -- acknowledged the message, the number of in-progress entries of the message's subscriber is what
  -- it was.
  pub consume-Kept :
      (view : S → ℕ)
      → OtherErrors w.partial_success_handler
      → OtherErrors w.full_success_handler
      → (bytes : B) (at : Time)
      → ((e : PromoCollectionPublishedMessage F)
          → w.decode bytes ≡ some e
          → Entries d w e.msisdn view)
      → (s : S) → let (r, s') = Requests.consume d w bytes at s in Kept (view s) r (view s')
  consume-Kept view partials fulls bytes at o s =
      (consume-Ends partials fulls (view s) bytes at o).from s refl
