-- ===== src/Tests/WorkerWorld.antt =====
-- A world for the worker: lists of documents, a clock, and the log of the writes about the loan 7 of
-- one subscriber.
use promo_collection.Prelude.{
  ◌+◌, refl, String, none, some, List, [], ◌∷◌, ◌++◌, ℤ, pos, if◌then◌else◌,
}
use promo_collection.Runtime.{Outcome, ok, err, panic, Go}
use promo_collection.Runtime.Logs.{Ordered, AllOrNone}
use promo_collection.Runtime.Time.{Time, second}
use promo_collection.Runtime.Strconv.{itoa}
use promo_collection.Driver.{Collection, ObjectId}
use promo_collection.Worker.Schema.{
  PromoCollectionPublishedMessage, Loans, SystemLevelRules, CollectionTransactionsInProgress,
  Collections, UnpaidLoanEntry, ClosedLoanEntry, Messages, LoanProducts, GraceTimestamp,
  LoanDeductionNotificationFormat,
}
use promo_collection.Worker.Deps.{Deps}
use promo_collection.Worker.Laws.{
  Write, loan_closed, collection_created, unpaid_ended, unpaid_created, loan_updated, loan_deleted,
  kafka_published, entry_deleted, collection_marked, Quiet, Records,
}
use promo_collection.Tests.Whole.{whole}
use promo_collection.Tests.Store.{listed}

-- What is stored and sent, before it is bytes.
pub data Value : Type 0 where
  skip : GraceTimestamp → Value
  notification : LoanDeductionNotificationFormat → Value
  row : List String → Value
  request : PromoCollectionPublishedMessage ℤ → Value

pub record World : Type 0 where
  pub clock : Time
  pub next_id : ObjectId
  pub rules : List SystemLevelRules
  pub loans : List (Loans ℤ)
  pub closed_loans : List (ClosedLoanEntry ℤ)
  pub unpaid_loans : List (UnpaidLoanEntry ℤ)
  pub collections : List (Collections ℤ)
  pub in_progress : List CollectionTransactionsInProgress
  pub messages : List Messages
  pub loan_products : List LoanProducts
  pub redis : List (String × Value)
  pub notifications : List Value
  pub rows : List Value
  pub log : List (Write ℤ)

abbrev pub subscriber : String
subscriber = "639171234567"

-- The loan and the entry that the log is about.
abbrev pub loan_seven : Loans ℤ
loan_seven = record {
  loan_id = 7;
  msisdn = subscriber;
  total_loan_amount = pos 50;
  grace_period_timestamp = 0;
  total_unpaid_loan = pos 50;
}

abbrev pub entry_seven : CollectionTransactionsInProgress
entry_seven = record { id = 3; msisdn = subscriber; created_at = 100 }

-- The operation, with its write in the log.
abbrev noted : {A : Type 0} → List (Write ℤ) → Go World A → Go World A
noted x m w = let (r, w') = m w in (r, record w' { log = w'.log ++ x })

-- A transaction that fails is undone.
abbrev pub rolled_back : World → Outcome (Unit {0}) → World → Outcome (Unit {0}) × World
rolled_back w (ok a) w' = (ok a, w')
rolled_back w (err e) w' = (err e, w)
rolled_back w panic w' = (panic, w)

abbrev loans : Collection World (Loans ℤ)
loans = listed (λ w. w.loans) (λ l w. record w { loans = l })

abbrev closed_loans : Collection World (ClosedLoanEntry ℤ)
closed_loans = listed (λ w. w.closed_loans) (λ l w. record w { closed_loans = l })

abbrev unpaid_loans : Collection World (UnpaidLoanEntry ℤ)
unpaid_loans = listed (λ w. w.unpaid_loans) (λ l w. record w { unpaid_loans = l })

abbrev collections : Collection World (Collections ℤ)
collections = listed (λ w. w.collections) (λ l w. record w { collections = l })

abbrev in_progress : Collection World CollectionTransactionsInProgress
in_progress = listed (λ w. w.in_progress) (λ l w. record w { in_progress = l })

abbrev pub deps : Deps World ℤ Value
deps = record {
  float = whole;
  to_int32 = λ a. a;
  rounded = λ a. a;
  now = λ w. (ok w.clock, record w { clock = w.clock + second });
  sms_date = λ t. itoa (pos t);
  kafka_date = λ t. itoa (pos t);
  new_object_id = λ w. (ok w.next_id, record w { next_id = w.next_id + 1 });
  sessions = record {
    start_session = λ w. (ok tt, w);
    with_transaction = λ m w. rolled_back w (m w).0 (m w).1;
  };
  rules = listed (λ w. w.rules) (λ l w. record w { rules = l });
  loans = record loans {
    update_one =
        λ p f. noted (loan_updated (f loan_seven).total_unpaid_loan ∷ []) (loans.update_one p f);
    delete_one = λ p. noted (if p loan_seven then loan_deleted 7 ∷ [] else []) (loans.delete_one p);
  };
  closed_loans = record closed_loans {
    insert_one = λ e.
        noted (loan_closed e.loan_id e.total_collected_amount ∷ []) (closed_loans.insert_one e);
  };
  unpaid_loans = record unpaid_loans {
    update_many = λ p f. noted (unpaid_ended ∷ []) (unpaid_loans.update_many p f);
    insert_one = λ u.
        noted (unpaid_created u.loan_id u.total_unpaid_amount u.unpaid_service_fee ∷ [])
          (unpaid_loans.insert_one u);
  };
  collections = record collections {
    insert_one = λ c.
        noted (collection_created c.collected_amount c.total_unpaid ∷ [])
          (collections.insert_one c);
    update_one = λ p f. noted (collection_marked ∷ []) (collections.update_one p f);
  };
  in_progress = record in_progress {
    delete_one = λ p.
        noted (if p entry_seven then entry_deleted subscriber ∷ [] else [])
          (in_progress.delete_one p);
  };
  messages = listed (λ w. w.messages) (λ l w. record w { messages = l });
  loan_products = listed (λ w. w.loan_products) (λ l w. record w { loan_products = l });
  redis_set = λ k b t w. (ok tt, record w { redis = (k, b) ∷ w.redis });
  skip_codec = record { marshal = λ t. some (skip t); unmarshal = λ b. none };
  notification_topic = record {
    send = λ b w. (ok "id", record w { notifications = w.notifications ++ (b ∷ []) });
  };
  notification_codec = record { marshal = λ m. some (notification m); unmarshal = λ b. none };
  kafka = record {
    send =
        λ b. noted (kafka_published ∷ []) (λ w. (ok "id", record w { rows = w.rows ++ (b ∷ []) }));
  };
  csv = λ fields. some (row fields);
}

abbrev pub log_of : World → List (Write ℤ)
log_of w = w.log

rolled_back-AllOrNone :
    (es : List (Write ℤ)) (w : World) (r : Outcome (Unit {0})) (w' : World)
    → Ordered es w.log r w'.log
    → AllOrNone es w.log (rolled_back w r w').0 (rolled_back w r w').1.log
rolled_back-AllOrNone es w (ok a) w' h = h
rolled_back-AllOrNone es w (err e) w' h = refl
rolled_back-AllOrNone es w panic w' h = refl

deps-Quiet : Quiet deps log_of
deps-Quiet = record {
  now_kept = record { at = λ s. refl };
  new_object_id_kept = record { at = λ s. refl };
  start_kept = record { at = λ s. refl };
  rules_kept = λ p. record { at = λ s. refl };
  loans_kept = λ p. record { at = λ s. refl };
  unpaid_kept = λ p. record { at = λ s. refl };
  messages_kept = λ p. record { at = λ s. refl };
  products_kept = λ p. record { at = λ s. refl };
  redis_kept = λ k b t. record { at = λ s. refl };
  notified_kept = λ b. record { at = λ s. refl };
}

pub deps-Records : Records deps 7 subscriber log_of
deps-Records = record {
  quiet = deps-Quiet;
  closed_recorded = λ e. record { at = λ s. refl };
  collection_recorded = λ c. record { at = λ s. refl };
  unpaid_ended_recorded = λ p f. record { at = λ s. refl };
  unpaid_recorded = λ u. record { at = λ s. refl };
  loan_update_recorded = λ p unpaid grace. record { at = λ s. refl };
  loan_delete_recorded = record { at = λ s. refl };
  sent_recorded = λ b. record { at = λ s. refl };
  entry_delete_recorded = record { at = λ s. refl };
  mark_recorded = λ id. record { at = λ s. refl };
  transaction_atomic =
      λ body es h. record { at = λ s. rolled_back-AllOrNone es s (body s).0 (body s).1 (h.at s) };
}
