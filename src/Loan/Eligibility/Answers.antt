-- ===== src/Loan/Eligibility/Answers.antt =====
-- What each check of `CheckEligibility` answers on the documents that are stored.
use promo_collection.Prelude.{
  ◌≡◌, refl, String, Bool, true, false, not, ◌&&◌, ◌||◌, Option, none, some, inl, inr, List, [],
  ◌∷◌, find?, arith, Bool-cases, ◌==◌, str_eq, if◌then◌else◌,
}
use promo_collection.Runtime.{Go, Error, pure, fail, ◌>>=◌}
use promo_collection.Runtime.Runs.{Gives, Gives-pure}
use promo_collection.Runtime.Lookups.{
  Reads, holds, chained, Reads-same, Reads-pure, Reads-fail, Reads-if, Reads-found, Reads-given,
  Reads-after, Reads-wrapping, Gives-found,
}
use promo_collection.Driver.{ObjectId}
use promo_collection.Loan.Schema.{LoanProduct, Subscribers, Loans}
use promo_collection.Loan.Deps.{Deps}
use promo_collection.Loan.Checks
use promo_collection.Loan.Checks.{is_activated}
use promo_collection.Loan.Eligibility.MayHave.{
  Stored, is_there, keyword_of, is_blacklisted, product_of, is_listed, channel_of, is_on_channel,
  is_of_brand, IsStored,
}

abbrev pub passed : Bool → Option (Unit {0})
passed true = some tt
passed false = none

chained-some : {A : Type 0} (o : Option A) → chained o (λ a. some a) none ≡ o
chained-some none = refl
chained-some (some a) = refl

chained-refusing :
    {A : Type 0} (o : Option A) (g : A → Bool)
    → chained o (λ a. passed (not (g a))) (some tt) ≡ passed (not (holds o g))
chained-refusing none g = refl
chained-refusing (some a) g = refl

chained-there : {A : Type 0} (o : Option A) → chained o (λ a. some tt) none ≡ passed (is_there o)
chained-there none = refl
chained-there (some a) = refl

-- What is found passes the test.
find?-holds : {A : Type 0} (p : A → Bool) (xs : List A) (x : A) → find? p xs ≡ some x → p x ≡ true
find?-holds p [] x h = cc
find?-holds p (y ∷ xs) x h = ground (arith, find?-holds p xs x)

second_false : (a b : Bool) → (a && not b) ≡ true → b ≡ false
second_false true true h = cc
second_false true false h = refl
second_false false b h = cc

-- What is found is not deleted, where the filter asks for that.
found_live :
    {A : Type 0} (p deleted : A → Bool) (xs : List A) (x : A)
    → find? (λ a. p a && not (deleted a)) xs ≡ some x
    → deleted x ≡ false
found_live p deleted xs x h =
    second_false (p x) (deleted x) (find?-holds (λ a. p a && not (deleted a)) xs x h)

-- The outstanding loan as the check returns it.
abbrev pub loan_of : {F : Type 0} → Option (Loans F) → Checks.ActiveLoan
loan_of none = Checks.no_loan none
loan_of (some l) = Checks.outstanding l

pub holds-activated :
    {A : Type 0} (o : Option A) (p k : A → Bool)
    → holds (chained o (λ a. if p a then some a else none) none) k ≡ holds o (λ a. p a && k a)
holds-activated none p k = refl
holds-activated (some a) p k = elim (Bool-cases (p a)) [ inl h ↦ rw h refl | inr h ↦ rw h refl ]

module _ {E S F B : Type 0} {d : Deps S F B} {db : Stored F} {view : S → List E}
    (q : IsStored d db view) where
  Reads-refusing :
      (b : Bool) (e : Error) → Reads view (if b then fail e else pure tt) (passed (not b))
  Reads-refusing true e = Reads-fail e
  Reads-refusing false e = Reads-pure tt

  Reads-live :
      {A : Type 0} {c : Option A} (m : Go S A) (b : Bool) (e : Error)
      → b ≡ false
      → Reads view m c
      → Reads view (if b then fail e else m) c
  Reads-live m true e h k = cc
  Reads-live m false e h k = k

  pub check_keyword-Reads :
      (keyword : String) → Reads view (Checks.check_keyword d keyword) (keyword_of d db keyword)
  unfolding Checks.check_keyword
  check_keyword-Reads keyword = Reads-same (chained-some (keyword_of d db keyword)) (
      Reads-found _ _ _ _ _ (q.keywords_found _)
        (λ k h.
          Reads-live _ k.is_deleted _
            (found_live (λ x. d.matches_pattern keyword x.name) (λ x. x.is_deleted) db.keywords k h)
            (Reads-pure k))
        (Reads-fail _))

  pub check_subscriber_blacklisting-Reads :
      (msisdn : String)
      → Reads view
          (Checks.check_subscriber_blacklisting d msisdn)
          (passed (not (is_blacklisted d db msisdn)))
  unfolding Checks.check_subscriber_blacklisting
  check_subscriber_blacklisting-Reads msisdn =
      Reads-same (chained-refusing {A = Subscribers F} _ (λ s. s.blacklisted)) (
        Reads-found _ _ _ _ _ (q.subscribers_found _) (λ s h. Reads-refusing s.blacklisted _)
          (Reads-pure tt))

  pub check_channel-Reads :
      (channel : String)
      → Reads view
          (Checks.check_if_channel_exists_and_active d channel)
          (chained (channel_of d db channel) (λ c. some c.id) none)
  unfolding Checks.check_if_channel_exists_and_active
  check_channel-Reads channel =
      Reads-found _ _ _ _ _ (q.channels_found _)
        (λ c h.
          Reads-live _ c.is_deleted _
            (found_live (λ x. str_eq x.code channel) (λ x. x.is_deleted) db.channels c h)
            (Reads-pure c.id))
        (Reads-fail _)

  pub check_channel_mapped-Reads :
      (channel product : ObjectId)
      → Reads view
          (Checks.check_if_channel_and_product_mapped d channel product)
          (passed (is_on_channel d db channel product))
  unfolding Checks.check_if_channel_and_product_mapped
  check_channel_mapped-Reads channel product =
      Reads-same (chained-there _)
        (Reads-found _ _ _ _ _ (q.products_channels_found _) (λ m h. Reads-pure tt) (Reads-fail _))

  pub check_brand_mapped-Reads :
      (brand product : ObjectId)
      → Reads view
          (Checks.check_if_brand_and_product_mapped d brand product)
          (passed (is_of_brand d db brand product))
  unfolding Checks.check_if_brand_and_product_mapped
  check_brand_mapped-Reads brand product =
      Reads-same (chained-there _)
        (Reads-found _ _ _ _ _ (q.products_brands_found _) (λ m h. Reads-pure tt) (Reads-fail _))

  product_found-Reads :
      (p : LoanProduct F)
      → p.is_deleted ≡ false
      → Reads view
          (Checks.product_found d (inl p))
          (if is_activated db.time p then some p else none)
  product_found-Reads p live = Reads-live _ p.is_deleted _ live (
      Reads-after _ _ db.time _ q.time_read
        (Reads-if (is_activated db.time p) _ _ _ _ (Reads-pure p) (Reads-fail _)))

  pub check_loan_product-Reads :
      (id : ObjectId)
      → Reads view
          (Checks.check_loan_product d id)
          (chained (product_of d db id) (λ p. if is_activated db.time p then some p else none) none)
  unfolding Checks.check_loan_product
  check_loan_product-Reads id =
      Reads-found _ _ _ _ _ (q.products_found _)
        (λ p h.
          product_found-Reads p
            (found_live (λ x. x.product_id == id) (λ x. x.is_deleted) db.products p h))
        (Reads-fail _)

  whitelist_checked-Reads :
      (m : Go S Bool) (has b : Bool) (e : Error)
      → Reads view m (some b)
      → Reads view
          (if not has then pure tt else (m >>= λ listed. if listed then pure tt else fail e))
          (passed (not has || b))
  whitelist_checked-Reads m false b e k = Reads-pure tt
  whitelist_checked-Reads m true true e k = Reads-given _ _ true _ k (Reads-pure tt)
  whitelist_checked-Reads m true false e k = Reads-given _ _ false _ k (Reads-fail e)

  is_whitelisted-Reads :
      (msisdn : String) (id : ObjectId)
      → Reads view (Checks.is_whitelisted d msisdn id) (some (is_listed d db msisdn id))
  unfolding Checks.is_whitelisted
  is_whitelisted-Reads msisdn id =
      Reads-given _ _ _ _ (Reads-wrapping _ _ _ (q.whitelisted_counted _)) (Reads-pure _)

  pub check_whitelist-Reads :
      (msisdn : String) (p : LoanProduct F)
      → Reads view
          (Checks.check_whitelist d msisdn p)
          (passed (not p.has_whitelisting || is_listed d db msisdn p.product_id))
  unfolding Checks.check_whitelist
  check_whitelist-Reads msisdn p =
      whitelist_checked-Reads _ p.has_whitelisting _ _ (is_whitelisted-Reads msisdn p.product_id)

  pub check_active_loan-Gives :
      (msisdn : String)
      → Gives view
          (Checks.check_active_loan d msisdn)
          (λ l. l ≡ loan_of (find? (λ x. str_eq x.msisdn msisdn) db.loans))
  unfolding Checks.check_active_loan
  check_active_loan-Gives msisdn =
      Gives-found (λ o l. l ≡ loan_of o) _ _ _ (q.loans_found _) (λ l. Gives-pure _ refl)
        (Gives-pure _ refl)
