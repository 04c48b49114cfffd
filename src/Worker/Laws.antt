-- ===== src/Worker/Laws.antt =====
-- What the theorems about the worker assume of its surroundings: an observation of the outside world
-- that is a log of the writes of one collection, in their order.
use promo_collection.Prelude.{Bool, true, String, ℤ, Option, List, [], ◌∷◌, ◌==◌, str_eq}
use promo_collection.Runtime.{Go}
use promo_collection.Runtime.Keeps.{Keeps}
use promo_collection.Runtime.Logs.{Logs, Atomic}
use promo_collection.Runtime.Time.{Time}
use promo_collection.Driver.{ObjectId}
use promo_collection.Worker.Schema.{
  SystemLevelRules, Loans, Messages, LoanProducts, UnpaidLoanEntry, ClosedLoanEntry, Collections,
}
use promo_collection.Worker.Deps.{Deps}
use promo_collection.Worker.Repos.{loan_update}

-- A write that has succeeded, with what it says of the loan: its id, and amounts in pesos.
pub data Write (F : Type 0) : Type 0 where
  -- the closed loan and the amount collected in all
  loan_closed : ObjectId → F → Write F
  -- the amount collected, and what is unpaid after it
  collection_created : F → F → Write F
  unpaid_ended : Write F
  -- the loan, its unpaid amount and unpaid service fee
  unpaid_created : ObjectId → F → Option F → Write F
  -- the unpaid amount
  loan_updated : F → Write F
  loan_deleted : ObjectId → Write F
  kafka_published : Write F
  entry_deleted : String → Write F
  collection_marked : Write F

module _ {S F B : Type 0} where
  -- What does not show in the log.
  pub record Quiet (d : Deps S F B) (view : S → List (Write F)) : Type 0 where
    pub now_kept : Keeps view d.now
    pub new_object_id_kept : Keeps view d.new_object_id
    pub start_kept : Keeps view d.sessions.start_session
    pub rules_kept : (p : SystemLevelRules → Bool) → Keeps view (d.rules.find_one p)
    pub loans_kept : (p : Loans F → Bool) → Keeps view (d.loans.find_one p)
    pub unpaid_kept : (p : UnpaidLoanEntry F → Bool) → Keeps view (d.unpaid_loans.find_last p)
    pub messages_kept : (p : Messages → Bool) → Keeps view (d.messages.find_one p)
    pub products_kept : (p : LoanProducts → Bool) → Keeps view (d.loan_products.find_one p)
    pub redis_kept : (k : String) (b : B) (t : ℤ) → Keeps view (d.redis_set k b t)
    pub notified_kept : (b : B) → Keeps view (d.notification_topic.send b)

  -- The log of the loan `id` of the subscriber `k`: a write that succeeds shows in the log, one that fails does not. A transaction whose body fails
  -- leaves nothing, and one that succeeds leaves what its body has written.
  pub record Records (d : Deps S F B) (id : ObjectId) (k : String) (view : S → List (Write F))
      : Type 0 where
    pub quiet : Quiet d view
    pub closed_recorded :
        (e : ClosedLoanEntry F)
        → Atomic view
            (d.closed_loans.insert_one e)
            (loan_closed e.loan_id e.total_collected_amount ∷ [])
    pub collection_recorded :
        (c : Collections F)
        → Atomic view
            (d.collections.insert_one c)
            (collection_created c.collected_amount c.total_unpaid ∷ [])
    pub unpaid_ended_recorded :
        (p : UnpaidLoanEntry F → Bool) (f : UnpaidLoanEntry F → UnpaidLoanEntry F)
        → Atomic view (d.unpaid_loans.update_many p f) (unpaid_ended ∷ [])
    pub unpaid_recorded :
        (u : UnpaidLoanEntry F)
        → Atomic view
            (d.unpaid_loans.insert_one u)
            (unpaid_created u.loan_id u.total_unpaid_amount u.unpaid_service_fee ∷ [])
    pub loan_update_recorded :
        (p : Loans F → Bool) (unpaid : F) (grace : Time)
        → Atomic view (d.loans.update_one p (loan_update d unpaid grace)) (loan_updated unpaid ∷ [])
    pub loan_delete_recorded :
        Atomic view (d.loans.delete_one (λ l. l.loan_id == id)) (loan_deleted id ∷ [])
    pub sent_recorded : (b : B) → Atomic view (d.kafka.send b) (kafka_published ∷ [])
    pub entry_delete_recorded :
        Atomic view (d.in_progress.delete_one (λ t. str_eq t.msisdn k)) (entry_deleted k ∷ [])
    pub mark_recorded :
        (id : ObjectId)
        → Atomic view
            (d.collections.update_one
              (λ c. c.id == id)
              (λ c. record c { published_to_kafka = true }))
            (collection_marked ∷ [])
    pub transaction_atomic :
        (body : Go S (Unit {0})) (es : List (Write F))
        → Logs view body es
        → Atomic view (d.sessions.with_transaction body) es
