-- ===== src/Runtime/Unfailing.antt =====
-- Computations that return no error: where every error on the way is looked at and dropped.
use promo_collection.Prelude.{◌≢◌, refl, Bool, true, false, if◌then◌else◌}
use promo_collection.Runtime.Effects.{
  Outcome, ok, err, panic, Go, Error, pure, attempt, attempted, ◌>>=◌, bind_outcome,
}

pub record Unfailing {S A : Type 0} (m : Go S A) : Type 0 where
  pub never : (s : S) (e : Error) → (m s).0 ≢ err e

attempted-ok : {A : Type 0} (r : Outcome A) (e : Error) → attempted r ≢ err e
attempted-ok (ok a) e h = cc
attempted-ok (err x) e h = cc
attempted-ok panic e h = cc

bind_outcome-Unfailing :
    {S A B : Type 0} (r : Outcome A) (f : A → Go S B) (s : S)
    → ((e : Error) → r ≢ err e)
    → ((a : A) → Unfailing (f a))
    → (e : Error) → (bind_outcome r f s).0 ≢ err e
bind_outcome-Unfailing (ok a) f s n k e h = (k a).never s e h
bind_outcome-Unfailing (err x) f s n k e h = n x refl
bind_outcome-Unfailing panic f s n k e h = cc

module _ {S A : Type 0} where
  pub Unfailing-pure : (a : A) → Unfailing (pure {S = S} a)
  unfolding ◌>>=◌
  Unfailing-pure a = record { never = λ s e h. cc }

  pub Unfailing-attempt : (m : Go S A) → Unfailing (attempt m)
  unfolding ◌>>=◌
  Unfailing-attempt m = record { never = λ s e h. attempted-ok (m s).0 e h }

  pub Unfailing-if :
      (b : Bool) (m n : Go S A) → Unfailing m → Unfailing n → Unfailing (if b then m else n)
  Unfailing-if true m n p q = p
  Unfailing-if false m n p q = q

  pub Unfailing-bind :
      {B : Type 0} (m : Go S A) (f : A → Go S B)
      → Unfailing m
      → ((a : A) → Unfailing (f a))
      → Unfailing (m >>= f)
  unfolding ◌>>=◌
  Unfailing-bind m f p k = record {
    never = λ s e h. bind_outcome-Unfailing (m s).0 f (m s).1 (p.never s) k e h;
  }

pub ruleset unfailing_rules = (Unfailing-pure, Unfailing-attempt, Unfailing-if, Unfailing-bind)
