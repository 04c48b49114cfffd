-- ===== src/Tests/PromoWorld.antt =====
-- A world for promo-collection: lists of documents, the sent requests, and a clock that advances by
-- a second at each look.
use promo_collection.Prelude.{
  ℕ, ◌+◌, ◌≡◌, ◌≢◌, refl, false, String, Option, none, some, List, [], ◌∷◌, ◌++◌, ℤ, pos, count_if,
  str_eq, eq_refl, if◌then◌else◌, All, ap,
}
use promo_collection.Runtime.{Outcome, ok, err, redis_nil, Error, is_no_documents}
use promo_collection.Promo.Rules.Exclusion.{Finds}
use promo_collection.Runtime.Time.{Time, second}
use promo_collection.Runtime.Strconv.{itoa}
use promo_collection.Promo.Schema.{
  Loans, SystemLevelRules, CollectionTransactionsInProgress, WhitelistedForDataCollection,
  UnpaidLoans, Messages, LoanProducts, SkipTimestamps, PublishToWorkerMsgFormat,
  PubSubNotificationMessage,
}
use promo_collection.Promo.Deps.{Deps}
use promo_collection.Promo.Laws.{Leaves, Quiet, Observes, Seen}
use promo_collection.Promo.Collection.Finite.{HasFinite}
use promo_collection.Tests.Whole.{whole, eqb_ℤ_refl}
use promo_collection.Tests.Store.{
  found, find?-some, listed, count_if-append_one, count_if-erase_first,
}

-- What is stored and sent, before it is bytes.
pub data Value : Type 0 where
  skip : SkipTimestamps → Value
  request : PublishToWorkerMsgFormat ℤ → Value
  notification : PubSubNotificationMessage → Value

abbrev skip_of : Value → Option SkipTimestamps
skip_of (skip t) = some t
skip_of (request m) = none
skip_of (notification n) = none

pub record World : Type 0 where
  pub clock : Time
  pub rules : List (SystemLevelRules ℤ)
  pub loans : List (Loans ℤ)
  pub unpaid_loans : List UnpaidLoans
  pub loan_products : List LoanProducts
  pub messages : List Messages
  pub whitelist : List WhitelistedForDataCollection
  pub in_progress : List CollectionTransactionsInProgress
  pub redis : String → Option Value
  pub requests : List Value
  pub notifications : List Value

abbrev got : Option Value → Outcome Value
got none = err redis_nil
got (some v) = ok v

abbrev pub deps : Deps World ℤ Value
deps = record {
  float = whole;
  now = λ w. (ok w.clock, record w { clock = w.clock + second });
  sms_date = λ t. itoa (pos t);
  rules = listed (λ w. w.rules) (λ l w. record w { rules = l });
  loans = listed (λ w. w.loans) (λ l w. record w { loans = l });
  unpaid_loans = listed (λ w. w.unpaid_loans) (λ l w. record w { unpaid_loans = l });
  loan_products = listed (λ w. w.loan_products) (λ l w. record w { loan_products = l });
  messages = listed (λ w. w.messages) (λ l w. record w { messages = l });
  whitelist = listed (λ w. w.whitelist) (λ l w. record w { whitelist = l });
  in_progress = listed (λ w. w.in_progress) (λ l w. record w { in_progress = l });
  redis = record {
    get = λ k w. (got (w.redis k), w);
    set = λ k v t w. (ok tt, record w { redis = λ j. if str_eq k j then some v else w.redis j });
    del = λ k w. (ok tt, record w { redis = λ j. if str_eq k j then none else w.redis j });
  };
  skip_codec = record { marshal = λ t. some (skip t); unmarshal = skip_of };
  worker_topic = record { send = λ b w. (ok "id", record w { requests = w.requests ++ (b ∷ []) }) };
  worker_codec = record { marshal = λ m. some (request m); unmarshal = λ b. none };
  notification_topic = record {
    send = λ b w. (ok "id", record w { notifications = w.notifications ++ (b ∷ []) });
  };
  notification_codec = record { marshal = λ m. some (notification m); unmarshal = λ b. none };
}

abbrev pub view : String → World → Seen Value
view k w = (count_if (λ t. str_eq t.msisdn k) w.in_progress, w.requests)

All-unit : {A : Type 0} (xs : List A) → All (λ x. Unit {0}) xs
All-unit [] = tt
All-unit (x ∷ xs) = (tt, All-unit xs)

pub deps-HasFinite : HasFinite (λ x. Unit {0}) deps
deps-HasFinite = record {
  of_int_finite = λ n. tt;
  mul_number = λ x y p q. eqb_ℤ_refl (deps.float.mul x y);
  rules_finite = λ p. record { value = λ s a e. (tt, All-unit a.peso_to_data_conversion_matrix) };
  loans_finite = λ p. record { value = λ s a e. (tt, tt) };
}

-- A list elsewhere in the state does not show.
module _ {T : Type 0} (k : String) (get : World → List T) (put : List T → World → World) where
  listed-Leaves :
      ((l : List T) (w : World) → view k (put l w) ≡ view k w) → Leaves (view k) (listed get put)
  listed-Leaves h = record {
    find_kept = λ p. record { at = λ s. refl };
    insert_kept = λ t. record { at = λ s. h _ s };
    update_kept = λ p f. record { at = λ s. h _ s };
    delete_kept = λ p. record { at = λ s. h _ s };
  }

deps-Quiet : (k : String) → Quiet deps (view k)
deps-Quiet k = record {
  now_kept = record { at = λ s. refl };
  rules_left = listed-Leaves k (λ w. w.rules) (λ l w. record w { rules = l }) (λ l w. refl);
  loans_left = listed-Leaves k (λ w. w.loans) (λ l w. record w { loans = l }) (λ l w. refl);
  unpaid_loans_left =
      listed-Leaves k (λ w. w.unpaid_loans) (λ l w. record w { unpaid_loans = l }) (λ l w. refl);
  loan_products_left =
      listed-Leaves k (λ w. w.loan_products) (λ l w. record w { loan_products = l }) (λ l w. refl);
  messages_left =
      listed-Leaves k (λ w. w.messages) (λ l w. record w { messages = l }) (λ l w. refl);
  whitelist_left =
      listed-Leaves k (λ w. w.whitelist) (λ l w. record w { whitelist = l }) (λ l w. refl);
  get_kept = λ j. record { at = λ s. refl };
  set_kept = λ j b t. record { at = λ s. refl };
  del_kept = λ j. record { at = λ s. refl };
  notified_kept = λ b. record { at = λ s. refl };
  find_kept = λ p. record { at = λ s. refl };
}

pub deps-Observes : (k : String) → Observes deps k (view k)
deps-Observes k = record {
  quiet = deps-Quiet k;
  inserted = λ t e s.
      ap (λ (n : ℕ). (n, s.requests)) (count_if-append_one _ s.in_progress t (rw e (eq_refl k)));
  deleted = λ s. (refl, ap (λ (n : ℕ). (n, s.requests)) (count_if-erase_first _ s.in_progress));
  sent = λ b s. refl;
}

found-missing :
    {T : Type 0} (r : Option T) (e : Error) → r ≢ none → found r ≡ err e → is_no_documents e ≡ false
found-missing none e h x = absurd (h refl)
found-missing (some t) e h x = cc

pub deps-Finds : (k : String) → Finds deps k (view k)
deps-Finds k = record {
  not_missing = λ s e h x. found-missing _ e (find?-some _ s.in_progress h) x;
}
