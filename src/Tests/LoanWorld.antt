-- ===== src/Tests/LoanWorld.antt =====
-- A world for loan-availment: documents that do not change, the entries of transactions in progress,
-- and the log of the calls that show.
use Prim.Native.String.{String}
use promo_collection.Prelude.{
  not, ◌&&◌, ◌≡◌, ◌⊎◌, inl, inr, ◌≢◌, refl, Bool, true, false, Option, none, some, List, [], ◌∷◌,
  ◌++◌, ℤ, pos, find?, erase_first, str_eq,
}
use mathlib.Core.List.{append-nil}
use promo_collection.Runtime.{ok, panic, Go, Error, no_documents, attempted}
use promo_collection.Runtime.Time.{Time}
use promo_collection.Runtime.Runs.{Silent, Gives, Emits}
use promo_collection.Driver.{Collection}
use promo_collection.Loan.Schema.{
  Keyword, LoanProduct, Channels, Brand, LoanProductsBrands, LoanProductsChannels,
  TransactionInProgress, ProductsNamesInAmax, SystemLevelRules,
}
use promo_collection.Loan.Deps.{
  Deps, Task, publish_status, publish_product_status, notify_user, delete_in_progress,
  process_request, AmaxRequest, create_session_request, login_request, topup_request, Attribute,
}
use promo_collection.Loan.Laws.{
  Call, Entry, present, absent, entry_read, entry_made, details_read, brand_reported,
  entry_reported, topup_asked, released, notified, Shows,
}
use promo_collection.Loan.Publisher.Marked.{PublishEvent}
use promo_collection.Tests.Whole.{whole}
use promo_collection.Tests.Store.{found}

pub record World : Type 0 where
  pub clock : Time
  pub entries : List TransactionInProgress
  pub log : List Call
  pub published : List String
  pub events : List PublishEvent

-- What is stored and received, before it is bytes: a text.
abbrev fixed : {T : Type 0} → List T → Collection World T
fixed ts = record {
  find_one = λ p w. (found (find? p ts), w);
  find_last = λ p w. (found (find? p ts), w);
  insert_one = λ t w. (ok 1, w);
  update_one = λ p f w. (ok tt, w);
  update_many = λ p f w. (ok tt, w);
  delete_one = λ p w. (ok tt, w);
}

-- The call shows in the log.
abbrev shown : {A : Type 0} → List Call → A → Go World A
shown es a w = (ok a, record w { log = w.log ++ es })

abbrev entry_in : Option TransactionInProgress → Entry
entry_in none = absent
entry_in (some t) = present

abbrev entries : Collection World TransactionInProgress
entries = record {
  find_one = λ p w. (
    found (find? p w.entries),
    record w { log = w.log ++ (entry_read (entry_in (find? p w.entries)) ∷ []) },
  );
  find_last = λ p w. (found (find? p w.entries), w);
  insert_one =
      λ t w. (ok 1, record w { entries = w.entries ++ (t ∷ []); log = w.log ++ (entry_made ∷ []) });
  update_one = λ p f w. (ok tt, w);
  update_many = λ p f w. (ok tt, w);
  delete_one = λ p w.
      (ok tt, record w { entries = erase_first p w.entries; log = w.log ++ (released ∷ []) });
}

-- Tasks run later, and show when they are started.
abbrev spawned : Task ℤ → Go World (Unit {0})
spawned (publish_status r n x) = shown [] tt
spawned (publish_product_status r p) = shown [] tt
spawned (notify_user m event b p l t) = shown (notified event ∷ []) tt
spawned (delete_in_progress m) = shown (released ∷ []) tt
spawned (process_request k m c h n x t) = shown [] tt

abbrev sent : AmaxRequest ℤ → Go World (ℤ × String)
sent create_session_request = shown [] (pos 200, "session")
sent (login_request s u d) = shown [] (pos 200, "login")
sent (topup_request s i t p x) = shown (topup_asked ∷ []) (pos 200, "topup")

abbrev pub product : LoanProduct ℤ
product = record {
  product_id = 7;
  name = "SURF50";
  price = pos 50;
  service_fee = pos 10;
  fee_type = "percent";
  loan_type = "DATA SKU";
  wallet_id = 3;
  is_scored_product = true;
  has_whitelisting = false;
  activation_method = "manual";
  active = true;
  promo_start_date = none;
  promo_end_date = none;
  created_at = 0;
  updated_at = 0;
  product_guid = "";
  migrated = false;
  is_deleted = false;
}

abbrev pub keyword : Keyword
keyword = record {
  id = 1;
  created_at = 0;
  updated_at = 0;
  name = "SURF50";
  product_id = 7;
  is_deleted = false;
}

abbrev pub channel : Channels
channel = record { id = 2; code = "SMS"; is_deleted = false; created_at = 0; updated_at = 0 }

abbrev brand : Brand
brand = record {
  id = 4;
  code = "TM";
  is_deleted = false;
  create_at = 0;
  updated_at = 0;
  system_level_acceptable = true;
}

abbrev pub brand_mapping : LoanProductsBrands
brand_mapping = record { id = 1; brand_id = 4; product_id = 7 }

abbrev pub channel_mapping : LoanProductsChannels
channel_mapping = record { id = 1; product_id = 7; channel_id = 2 }

abbrev amax_name : ProductsNamesInAmax
amax_name = record {
  id = 5;
  name = "SURF50TM";
  is_deleted = false;
  created_at = 0;
  updated_at = 0;
  migrated = false;
  product_guid = "";
  product_id = 7;
  brand_id = 4;
}

abbrev pub rules : SystemLevelRules ℤ
rules = record {
  id = 6;
  credit_score_threshold = pos 0;
  partial_collection_enabled = true;
  reserved_amount_for_partial = pos 0;
  education_period = pos 0;
  deferment_period = pos 0;
  overdue_threshold = pos 0;
  updated_at = 0;
  updated_user_id = 0;
  max_data_collection_percent = pos 50;
  peso_to_data_conversion = record { loan_type = "SCORED"; conversion_rate = pos 3 } ∷ [];
  min_collection_amount = pos 1;
  promo_collection_enabled = true;
  wallet_exclusion_list = [];
  promo_education_period = pos 3;
  grace_period = pos 48;
  loan_load_period = pos 5;
}

abbrev pub attributes : List Attribute
attributes =
    record { name = "clla"; value = "100" }
    ∷ record { name = "btc"; value = "TM" }
    ∷ record { name = "cfutd"; value = "Consumer" }
    ∷ []

-- The result of a lookup.
abbrev asked : {T : Type 0} → Option T → T ⊎ Error
asked none = inr no_documents
asked (some t) = inl t

abbrev pub deps : Deps World ℤ String
deps = record {
  float = whole;
  to_int64 = λ x. x;
  parse_float = λ t. some (pos 100);
  parse_int = λ t. pos 0;
  parse_time = λ t. none;
  now = λ w. (ok w.clock, w);
  new_object_id = λ w. (ok 8, w);
  new_guid = λ w. (ok "guid", w);
  matches_pattern = λ p t. str_eq p t;
  keywords = fixed (keyword ∷ []);
  subscribers = fixed [];
  products = fixed (product ∷ []);
  channels = fixed (channel ∷ []);
  brands = record (fixed (brand ∷ [])) {
    find_one = λ p w. (
      found (find? p (brand ∷ [])),
      record w { log = w.log ++ (brand_reported (asked (find? p (brand ∷ [])))) },
    );
  };
  products_brands = fixed (brand_mapping ∷ []);
  products_channels = fixed (channel_mapping ∷ []);
  amax_names = fixed (amax_name ∷ []);
  in_progress = entries;
  rules = fixed (rules ∷ []);
  loans = fixed [];
  unpaid_loans = fixed [];
  last_version = λ p w. (found none, w);
  availments = fixed [];
  count_whitelisted = λ p w. (ok 0, w);
  partner_of = λ id w. (ok ("GCASH", pos 1, false), w);
  start_session = λ w. (ok tt, w);
  start_transaction = λ w. (ok tt, w);
  abort_transaction = λ w. (ok tt, w);
  commit_transaction = λ w. (ok tt, w);
  get_details_by_attribute = λ m. shown (details_read true ∷ []) attributes;
  send_amax = sent;
  read_all = λ b w. (ok b, w);
  decode_session = λ b. some (record { session_result_code = pos 0; session = "s1" });
  decode_login = λ b. some (record { result_code = pos 0; session_result_code = pos 0 });
  decode_topup =
      λ b. some (record { result_code = pos 0; session_result_code = pos 0; trans_id = pos 9 });
  decode_fault = λ b. none;
  login_session_user = "user";
  login_session_password = "password";
  sha1_hex = λ t. t;
  publish_kafka = λ t w. (ok tt, w);
  kafka_date = λ t. "";
  redis_set = λ k b t w. (ok tt, w);
  marshal_loan = λ l. some "loan";
  spawn = spawned;
}

abbrev pub log_of : World → List Call
log_of w = w.log

pub found-no_panic : {T : Type 0} (o : Option T) → found o ≢ panic
found-no_panic none h = cc
found-no_panic (some t) h = cc

fixed-Silent : {T : Type 0} (ts : List T) (p : T → Bool) → Silent log_of ((fixed ts).find_one p)
fixed-Silent ts p = record { at = λ w. (refl, found-no_panic (find? p ts)) }

plain-Silent : {A : Type 0} (a : A) → Silent log_of {A = A} (λ w. (ok a, w))
plain-Silent a = record { at = λ w. (refl, λ h. cc) }

shown-Emits : {A : Type 0} (es : List Call) (a : A) → Emits log_of (shown es a) es
shown-Emits es a = record { at = λ w. (a, es, refl, refl, refl) }

shown-Quiet : {A : Type 0} (a : A) → Gives log_of (shown [] a) (λ x. Unit)
shown-Quiet a = record { at = λ w. (a, refl, append-nil w.log, tt) }

shown-Silent : {A : Type 0} (a : A) → Silent log_of (shown [] a)
shown-Silent a = record { at = λ w. (append-nil w.log, λ h. cc) }

asked-found :
    (o : Option Brand) (w : World)
    → (x : Brand ⊎ Error) × (attempted (found o) ≡ ok x)
      × (w.log ++ brand_reported (asked o) ≡ w.log ++ brand_reported x)
asked-found none w = (inr no_documents, refl, refl)
asked-found (some b) w = (inl b, refl, refl)

entry-found :
    (o : Option TransactionInProgress) (w : World)
    → (x : TransactionInProgress ⊎ Error) × (attempted (found o) ≡ ok x)
      × (w.log ++ (entry_read (entry_in o) ∷ []) ≡ w.log ++ entry_reported x)
entry-found none w = (inr no_documents, refl, refl)
entry-found (some t) w = (inl t, refl, refl)

pub deps-Shows : (k : String) → Shows deps k log_of
deps-Shows k = record {
  now_quiet = record { at = λ w. (w.clock, refl, refl, tt) };
  id_quiet = record { at = λ w. (8, refl, refl, tt) };
  guid_quiet = record { at = λ w. ("guid", refl, refl, tt) };
  keywords_silent = fixed-Silent (keyword ∷ []);
  subscribers_silent = fixed-Silent [];
  products_silent = fixed-Silent (product ∷ []);
  channels_silent = fixed-Silent (channel ∷ []);
  products_brands_silent = fixed-Silent (brand_mapping ∷ []);
  products_channels_silent = fixed-Silent (channel_mapping ∷ []);
  amax_names_silent = fixed-Silent (amax_name ∷ []);
  rules_silent = fixed-Silent (rules ∷ []);
  loans_silent = fixed-Silent [];
  loan_insert_silent = λ l. plain-Silent 1;
  unpaid_insert_silent = λ u. plain-Silent 1;
  availment_insert_silent = λ a. plain-Silent 1;
  whitelisted_silent = λ p. plain-Silent 0;
  partner_silent = λ id. plain-Silent _;
  start_session_silent = plain-Silent tt;
  start_transaction_silent = plain-Silent tt;
  abort_silent = plain-Silent tt;
  commit_silent = plain-Silent tt;
  redis_silent = λ k b t. plain-Silent tt;
  read_silent = λ b. plain-Silent b;
  create_session_silent = shown-Silent _;
  login_silent = λ s u g. shown-Silent _;
  subscriber_insert_silent = λ x. plain-Silent 1;
  subscriber_update_silent = λ p f. plain-Silent tt;
  publish_quiet = λ r n x. shown-Quiet tt;
  publish_product_quiet = λ r p. shown-Quiet tt;
  details_shown = record { at = λ w. (inl attributes, refl, refl) };
  brand_shown = λ b. record {
    at = λ w.
        asked-found (find? (λ x. deps.matches_pattern b x.code && not x.is_deleted) (brand ∷ [])) w;
  };
  entry_shown = record { at = λ w. entry-found (find? (λ t. str_eq t.msisdn k) w.entries) w };
  insert_shown = λ t h. record { at = λ w. (refl, λ h. cc) };
  topup_shown = λ s i p x. record { at = λ w. (refl, λ h. cc) };
  delete_shown = record { at = λ w. (tt, released ∷ [], refl, refl, refl) };
  delete_spawn_shown = shown-Emits _ tt;
  notify_shown = λ e b p l t. shown-Emits _ tt;
}
