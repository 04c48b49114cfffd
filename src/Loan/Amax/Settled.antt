-- ===== src/Loan/Amax/Settled.antt =====
-- How a top-up ends, and what the subscriber sees of it.
use promo_collection.Prelude.{
  String, ℤ, true, false, List, [], ◌∷◌, ◌++◌, ◌⊎◌, inl, inr, Option, none, some, ◌≡◌, Bool-cases,
}
use promo_collection.Runtime.{Error}
use promo_collection.Runtime.Runs.{
  Silent, Runs, Marks, Silent-pure, Silent-fail, Silent-or_fail, Silent-bind, Silent-attempt,
  silent_rules,
}
use promo_collection.Runtime.Runs.Calls.{
  Runs-called, Marks-bind, Marks-attempt, Runs-pure, Runs-given, Runs-bind, Runs-handle,
  Runs-marked, Runs-emitted,
}
use promo_collection.Loan.Errors.{equals_coded, error_loan_availment_timeout_code}
use promo_collection.Loan.Deps.{Deps, AmaxRequest}
use promo_collection.Loan.Laws.{Call, topup_asked, released, notified, Shows}
use promo_collection.Loan.Releases.{OnlyReleases}
use promo_collection.Loan.Availments.Total.{
  insert_failed_availment-Quiet, insert_successful_availment-Runs, delete_in_progress-Marks,
}
use promo_collection.Loan.Amax
use promo_collection.Loan.Amax.{Provision}

-- The calls that belong to each result of `ProvisionLoanAmax`.
pub data Settled : Option Error → List Call → Type 0 where
  -- AMAX gave no session: it was not asked for a top-up
  no_session :
      (e : Error) → Settled (some e) (released ∷ notified "LoanAvailmentFailedSystemFailure" ∷ [])
  no_login :
      (e : Error) → Settled (some e) (notified "LoanAvailmentFailedSystemFailure" ∷ released ∷ [])
  -- the top-up was refused
  refused :
      (e : Error)
      → equals_coded error_loan_availment_timeout_code e ≡ false
      → Settled (some e) (topup_asked ∷ released ∷ notified "LoanAvailmentFailedSystemFailure" ∷ [])
  -- nothing is known of the top-up: the entry stays
  timed_out :
      (e : Error)
      → equals_coded error_loan_availment_timeout_code e ≡ true
      → Settled (some e) (topup_asked ∷ notified "LoanAvailmentFailedTimeOut" ∷ [])
  -- the loan is given, and stored as far as that goes
  topped_up :
      (es : List Call)
      → OnlyReleases es
      → Settled none (topup_asked ∷ es ++ released ∷ notified "LoanAvailmentSuccess" ∷ [])

module _ {S F B : Type 0} {d : Deps S F B} {k : String} {view : S → List Call}
    (q : Shows d k view) where
  sent-Silent : (x : (ℤ × B) ⊎ Error) → Silent view (Amax.sent d x)
  sent-Silent (inl (status, raw)) =
      Silent-bind _ _ (q.read_silent raw) (λ body. Silent-pure (status, body))
  sent-Silent (inr e) = Silent-fail _

  fault-Silent : (body : B) → Silent view (Amax.fault d body)
  fault-Silent body = Silent-bind _ _ (Silent-or_fail _ _) (λ t. Silent-fail _)

  api_call-Silent :
      (r : AmaxRequest F) → Silent view (d.send_amax r) → Silent view (Amax.api_call d r)
  unfolding Amax.api_call
  api_call-Silent r k = Silent-bind _ _ (Silent-attempt _ k) sent-Silent

  create_session-Silent : Silent view (Amax.create_session d)
  unfolding Amax.create_session
  create_session-Silent =
      Silent-bind _ _ (api_call-Silent _ q.create_session_silent)
        (λ x. search (silent_rules, fault-Silent) depth 20)

  login_session-Silent : (session : String) → Silent view (Amax.login_session d session)
  unfolding Amax.login_session
  login_session-Silent session =
      Silent-bind _ _ (api_call-Silent _ (q.login_silent _ _ _))
        (λ x. search (silent_rules, fault-Silent) depth 20)

  topup-Marks :
      (session : String) (id : ℤ) (product : String) (amount : F)
      → Marks view (Amax.topup d session id k product amount) (topup_asked ∷ [])
  unfolding Amax.topup Amax.api_call
  topup-Marks session id product amount =
      Marks-bind _ _ (Marks-bind _ _ (Marks-attempt _ (q.topup_shown _ _ _ _)) sent-Silent)
        (λ x. search silent_rules depth 20)

-- Of the number of the provision.
module _ {S F B : Type 0} {d : Deps S F B} {view : S → List Call} (p : Provision F)
    (q : Shows d p.msisdn view) where
  session_failed-Settled : (e : Error) → Runs view (Amax.session_failed d p e) Settled
  unfolding Amax.session_failed
  session_failed-Settled e =
      Runs-given _ _ (insert_failed_availment-Quiet q _ _ _ _ _ _ _ _ _) (λ i t.
        Runs-given _ _ (q.publish_product_quiet _ _) (λ u v.
          Runs-called _ _ (delete_in_progress-Marks q)
            (λ x. Runs-emitted _ _ (q.notify_shown _ _ _ _ _) (λ w. Runs-pure _ (no_session e)))))

  login_failed-Settled : (e : Error) → Runs view (Amax.login_failed d p e) Settled
  unfolding Amax.login_failed
  login_failed-Settled e =
      Runs-given _ _ (insert_failed_availment-Quiet q _ _ _ _ _ _ _ _ _) (λ i t.
        Runs-emitted _ _ (q.notify_shown _ _ _ _ _) (λ u.
          Runs-given _ _ (q.publish_product_quiet _ _)
            (λ v w. Runs-emitted _ _ q.delete_spawn_shown (λ x. Runs-pure _ (no_login e)))))

  -- After the top-up was asked for.
  topup_failed-Settled :
      (e : Error) → Runs view (Amax.topup_failed d p e) (λ r es. Settled r (topup_asked ∷ es))
  unfolding Amax.topup_failed
  topup_failed-Settled e =
      Runs-given _ _ (insert_failed_availment-Quiet q _ _ _ _ _ _ _ _ _) (λ i t.
        Runs-given _ _ (q.publish_quiet _ _ _) (λ u v.
          elim (Bool-cases (equals_coded error_loan_availment_timeout_code e)) [
            | inl late ↦
                rw late (
                  Runs-emitted _ _ (q.notify_shown _ _ _ _ _) (λ w. Runs-pure _ (timed_out e late)))
            | inr known ↦ rw known (
                Runs-called _ _ (delete_in_progress-Marks q) (λ x.
                  Runs-emitted _ _ (q.notify_shown _ _ _ _ _) (λ w. Runs-pure _ (refused e known))))
          ]))

  topped_up-Settled : Runs view (Amax.topped_up d p) (λ r es. Settled r (topup_asked ∷ es))
  unfolding Amax.topped_up
  topped_up-Settled =
      Runs-bind (λ i es. OnlyReleases es) _ _ (insert_successful_availment-Runs q _ _ _ _ _ _ _)
        (λ i es h. Runs-given _ _ (q.publish_product_quiet _ _) (λ u v.
          Runs-called _ _ (delete_in_progress-Marks q)
            (λ x. Runs-emitted _ _ (q.notify_shown _ _ _ _ _) (λ w. Runs-pure _ (topped_up es h)))))

  -- `ProvisionLoanAmax` returns, and its calls belong to what it returns.
  pub provision_loan_amax-Settled : Runs view (Amax.provision_loan_amax d p) Settled
  unfolding Amax.provision_loan_amax
  provision_loan_amax-Settled =
      Runs-handle _ _ (create_session-Silent q)
        (λ session.
          Runs-handle _ _ (login_session-Silent q session)
            (λ t.
              Runs-marked _ _ (topup-Marks q _ _ _ _) (λ u. topped_up-Settled) topup_failed-Settled)
            login_failed-Settled)
        session_failed-Settled
