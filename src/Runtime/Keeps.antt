-- ===== src/Runtime/Keeps.antt =====
-- Reasoning about computations through an observation of the outside world: `Keeps view m` when
-- `m` leaves it alone, `Ends view v m Q` when a run that begins at `v` ends as `Q` says. There is a
-- rule for each way to build a computation.
use promo_collection.Prelude.{
  ◌≡◌, refl, ◌∙◌, String, Bool, true, false, Option, none, some, if◌then◌else◌,
}
use promo_collection.Runtime.Effects.{
  Outcome, ok, err, panic, Go, Error, pure, fail, crash, wrapping, restating, attempt, deref,
  or_fail, ◌>>=◌, bind_outcome, deferred_result, defer,
}

pub record Keeps {O S A : Type 0} (view : S → O) (m : Go S A) : Type 0 where
  pub at : (s : S) → view (m s).1 ≡ view s

pub record Ends {O S A : Type 0} (view : S → O) (v : O) (m : Go S A) (Q : Outcome A → O → Type 0)
    : Type 0 where
  pub from : (s : S) → view s ≡ v → Q (m s).0 (view (m s).1)

module _ {O S : Type 0} {view : S → O} where
  module _ {A : Type 0} where
    pub Keeps-pure : (a : A) → Keeps view (pure a)
    unfolding ◌>>=◌
    Keeps-pure a = record { at = λ s. refl }

    pub Keeps-fail : (e : Error) → Keeps view (fail {A = A} e)
    unfolding ◌>>=◌
    Keeps-fail e = record { at = λ s. refl }

    pub Keeps-crash : Keeps view (crash {A = A})
    unfolding ◌>>=◌
    Keeps-crash = record { at = λ s. refl }

    pub Keeps-wrapping : (t : String) (m : Go S A) → Keeps view m → Keeps view (wrapping t m)
    unfolding ◌>>=◌
    Keeps-wrapping t m k = record { at = k.at }

    pub Keeps-restating : (t : String) (m : Go S A) → Keeps view m → Keeps view (restating t m)
    unfolding ◌>>=◌
    Keeps-restating t m k = record { at = k.at }

    pub Keeps-attempt : (m : Go S A) → Keeps view m → Keeps view (attempt m)
    unfolding ◌>>=◌
    Keeps-attempt m k = record { at = k.at }

    pub Keeps-deref : (o : Option A) → Keeps view (deref o)
    unfolding ◌>>=◌
    Keeps-deref none = record { at = λ s. refl }
    Keeps-deref (some a) = record { at = λ s. refl }

    pub Keeps-or_fail : (e : Error) (o : Option A) → Keeps view (or_fail e o)
    unfolding ◌>>=◌
    Keeps-or_fail e none = record { at = λ s. refl }
    Keeps-or_fail e (some a) = record { at = λ s. refl }

    pub Keeps-if :
        (b : Bool) (m n : Go S A) → Keeps view m → Keeps view n → Keeps view (if b then m else n)
    Keeps-if true m n km kn = km
    Keeps-if false m n km kn = kn

  module _ {A B : Type 0} where
    bind_outcome-Keeps :
        (r : Outcome A) (f : A → Go S B)
        → ((a : A) → Keeps view (f a))
        → (s : S) → view (bind_outcome r f s).1 ≡ view s
    bind_outcome-Keeps (ok a) f kf s = (kf a).at s
    bind_outcome-Keeps (err e) f kf s = refl
    bind_outcome-Keeps panic f kf s = refl

    pub Keeps-bind :
        (m : Go S A) (f : A → Go S B)
        → Keeps view m
        → ((a : A) → Keeps view (f a))
        → Keeps view (m >>= f)
    unfolding ◌>>=◌
    Keeps-bind m f km kf = record { at = λ s. bind_outcome-Keeps (m s).0 f kf (m s).1 ∙ km.at s }

  module _ {A : Type 0} {v : O} {Q : Outcome A → O → Type 0} where
    pub Ends-keeps : (m : Go S A) → Keeps view m → ((r : Outcome A) → Q r v) → Ends view v m Q
    Ends-keeps m k q = record { from = λ s e. rw (k.at s, e) (q (m s).0) }

    pub Ends-weaken :
        (R : Outcome A → O → Type 0) (m : Go S A)
        → Ends view v m R
        → ((r : Outcome A) (u : O) → R r u → Q r u)
        → Ends view v m Q
    Ends-weaken R m h k = record { from = λ s e. k (m s).0 (view (m s).1) (h.from s e) }

    pub Ends-pure : (a : A) → Q (ok a) v → Ends view v (pure a) Q
    unfolding ◌>>=◌
    Ends-pure a q = record { from = λ s e. rw e q }

    pub Ends-fail : (e : Error) → Q (err e) v → Ends view v (fail e) Q
    unfolding ◌>>=◌
    Ends-fail x q = record { from = λ s e. rw e q }

    pub Ends-if :
        (b : Bool) (m n : Go S A)
        → Ends view v m Q
        → Ends view v n Q
        → Ends view v (if b then m else n) Q
    Ends-if true m n km kn = km
    Ends-if false m n km kn = kn

  module _ {A B : Type 0} where
    bind_outcome-Ends :
        (R : Outcome A → O → Type 0) (Q : Outcome B → O → Type 0) (r : Outcome A) (f : A → Go S B)
        (s : S)
        → R r (view s)
        → ((a : A) (u : O) → R (ok a) u → Ends view u (f a) Q)
        → ((e : Error) (u : O) → R (err e) u → Q (err e) u)
        → ((u : O) → R panic u → Q panic u)
        → let (q, s') = bind_outcome r f s in Q q (view s')
    bind_outcome-Ends R Q (ok a) f s h kf ke kp = (kf a (view s) h).from s refl
    bind_outcome-Ends R Q (err e) f s h kf ke kp = ke e (view s) h
    bind_outcome-Ends R Q panic f s h kf ke kp = kp (view s) h

  module _ {A B : Type 0} {v : O} {Q : Outcome B → O → Type 0} where
    -- The first part ends as `R` says, and `R` is enough for the rest.
    pub Ends-bind :
        (R : Outcome A → O → Type 0) (m : Go S A) (f : A → Go S B)
        → Ends view v m R
        → ((a : A) (u : O) → R (ok a) u → Ends view u (f a) Q)
        → ((e : Error) (u : O) → R (err e) u → Q (err e) u)
        → ((u : O) → R panic u → Q panic u)
        → Ends view v (m >>= f) Q
    unfolding ◌>>=◌
    Ends-bind R m f h kf ke kp = record {
      from = λ s e. bind_outcome-Ends R Q (m s).0 f (m s).1 (h.from s e) kf ke kp;
    }

    -- The first part leaves the observation alone.
    pub Ends-frame :
        (m : Go S A) (f : A → Go S B)
        → Keeps view m
        → ((a : A) → Ends view v (f a) Q)
        → ((e : Error) → Q (err e) v)
        → Q panic v
        → Ends view v (m >>= f) Q
    Ends-frame m f km kf ke kp =
        Ends-bind (λ r u. u ≡ v) m f (Ends-keeps m km (λ r. refl)) (λ a u h. rw h (kf a))
          (λ e u h. rw h (ke e)) (λ u h. rw h kp)

  module _ {B : Type 0} {v : O} where
    -- The clean-up is judged by how the body ended.
    pub Ends-defer :
        {C : Type 0} {P : Outcome B → O → Type 0} (R : Outcome B → O → Type 0)
        (cleanup : Outcome B → Go S C) (body : Go S B)
        → Ends view v body R
        → ((r : Outcome B) (u : O)
            → R r u
            → Ends view u (cleanup r) (λ q w. P (deferred_result r q) w))
        → Ends view v (defer cleanup body) P
    unfolding defer
    Ends-defer R cleanup body h k = record {
      from = λ s e. (k (body s).0 (view (body s).1) (h.from s e)).from (body s).1 refl;
    }

pub ruleset keeps_rules = (
  Keeps-pure, Keeps-fail, Keeps-crash, Keeps-wrapping, Keeps-restating, Keeps-attempt, Keeps-deref,
  Keeps-or_fail, Keeps-if, Keeps-bind,
)
