-- ===== src/Promo/SkipPeriod/Periods.antt =====
-- When a subscriber is skipped: the test on the Redis entry, and the time that the entry lives.
use promo_collection.Prelude.{String, ◌+◌, ◌≤◌, ◌<◌, ◌≡◌, refl, ◌⊎◌, true, false, arith}
use promo_collection.Runtime.{Outcome, ok, err, panic, pure, bind_outcome, ◌>>=◌}
use Prim.Native.String.{◌++◌}
use promo_collection.Runtime.Returns.{Returns, Returns-bind, Returns-Any, Returns-pure, Any}
use promo_collection.Runtime.Time.{Time}
use promo_collection.Promo.Schema.{SkipTimestamps}
use promo_collection.Promo.Deps.{Deps}
use promo_collection.Promo.Repos.{skip_ttl}
use promo_collection.Promo.SkipPeriod.{active_period, notify_in_education, clear_skip_entry}

ended :
    {S : Type 0} (r : Outcome (Unit {0})) (s : S)
    → (bind_outcome {0, 0, 0} r (λ u. pure false) s).0 ≡ ok false
    → (r ≡ ok tt) × ((bind_outcome {0, 0, 0} r (λ u. pure false) s).1 ≡ s)
unfolding ◌>>=◌
ended (ok u) s e = (refl, refl)
ended (err x) s e = cc
ended panic s e = cc

module _ {S F B : Type 0} (d : Deps S F B) where
  notify_in_education-true : (k : String) → Returns (λ b. b ≡ true) (notify_in_education d k)
  unfolding notify_in_education
  notify_in_education-true k = Returns-bind Any _ _ (Returns-Any _) (λ r u.
      Returns-bind Any _ _ (Returns-Any _)
        (λ l v. Returns-bind Any _ _ (Returns-Any _) (λ a w. Returns-pure true refl)))

  clear_skip_entry-deletes :
      (k : String) (s : S)
      → (clear_skip_entry d k s).0 ≡ ok false
      → ((d.redis.del ("skipTimestamps:" ++ k) s).0 ≡ ok tt)
        × ((clear_skip_entry d k s).1 ≡ (d.redis.del ("skipTimestamps:" ++ k) s).1)
  unfolding clear_skip_entry ◌>>=◌
  clear_skip_entry-deletes k s e = let r = d.redis.del ("skipTimestamps:" ++ k) s in ended r.0 r.1 e

  -- The test of the periods of a Redis entry answers that none is active only when all three are over,
  -- and then it has deleted the subscriber's entry and done nothing else.
  pub active_period_over :
      (k : String) (now : Time) (t : SkipTimestamps) (s : S)
      → (active_period d k now t s).0 ≡ ok false
      → (t.promo_education_period_timestamp ≤ now)
        × (t.loan_load_period_timestamp ≤ now)
        × (t.grace_period_timestamp ≤ now)
        × ((d.redis.del ("skipTimestamps:" ++ k) s).0 ≡ ok tt)
        × ((active_period d k now t s).1 ≡ (d.redis.del ("skipTimestamps:" ++ k) s).1)
  unfolding active_period ◌>>=◌
  active_period_over k now t s e =
      ground (arith, (notify_in_education-true k).value s false, clear_skip_entry-deletes k s)

  -- As long as the education or the loan-load period that a saved entry holds is not over, the entry
  -- has not expired: `now` is the time of the write and `t` a later one.
  pub skip_ttl_covers :
      (now t : Time) (e : SkipTimestamps)
      → (t < e.promo_education_period_timestamp) ⊎ (t < e.loan_load_period_timestamp)
      → now ≤ t
      → t < now + skip_ttl d now e
  unfolding skip_ttl
  skip_ttl_covers now t e h le = ground arith
