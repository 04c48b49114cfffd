-- ===== src/Loan/Requests/Released.antt =====
-- A request that goes on releases its entry, and asks AMAX for one top-up at most.
use promo_collection.Prelude.{◌≤◌, Bool, true, false, List, ◌⊎◌, Option, some, ◌≡◌, count_if}
use promo_collection.Runtime.{Error}
use promo_collection.Runtime.Runs.{Runs}
use promo_collection.Loan.Errors.{equals_coded, error_loan_availment_timeout_code}
use promo_collection.Loan.Deps.{Deps}
use promo_collection.Loan.Laws.{
  Call, details_read, brand_read, entry_read, entry_made, topup_asked, released, notified,
}
use promo_collection.Loan.Amax.Settled.{Settled}
use promo_collection.Loan.Requests

abbrev pub is_topup : Call → Bool
is_topup (details_read b) = false
is_topup (brand_read b) = false
is_topup (entry_read b) = false
is_topup entry_made = false
is_topup topup_asked = true
is_topup released = false
is_topup (notified event) = false

abbrev pub is_release : Call → Bool
is_release (details_read b) = false
is_release (brand_read b) = false
is_release (entry_read b) = false
is_release entry_made = false
is_release topup_asked = false
is_release released = true
is_release (notified event) = false

-- The result is AMAX's timeout.
abbrev pub TimedOut : Bool × Option Error → Type 0
TimedOut r =
    (e : Error) × (r ≡ (true, some e)) × (equals_coded error_loan_availment_timeout_code e ≡ true)

-- At most one top-up was asked for; the entry was released, or AMAX did not answer in time.
abbrev pub Careful : Bool × Option Error → List Call → Type 0
Careful r es = (count_if is_topup es ≤ 1) × ((1 ≤ count_if is_release es) ⊎ TimedOut r)
