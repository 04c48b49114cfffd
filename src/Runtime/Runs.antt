-- ===== src/Runtime/Runs.antt =====
-- Total runs and the calls that show: an observation of the outside world that is a log of calls.
-- `Silent` is a computation that does not panic and shows nothing, `Gives` one that also returns a
-- value of which `P` holds, `Marks` one that shows the calls `es` whatever its outcome, and `Runs`
-- one that returns a value and shows calls that fit it.
use promo_collection.Prelude.{
  ◌≡◌, ◌≢◌, refl, sym, subst, ap, ◌∙◌, ◌⊎◌, inl, inr, String, Bool, true, false, Option, none, some,
  List, [], ◌++◌, if◌then◌else◌,
}
use mathlib.Core.List.{append_assoc, append-nil}
use promo_collection.Runtime.Effects.{
  Outcome, ok, err, panic, Go, Error, pure, fail, wrapping, wrap_error, restating, restate_error,
  attempt, attempted, deref, or_fail, ◌>>=◌, bind_outcome,
}
use promo_collection.Runtime.Guards.{checked, checking}
pub mod Calls

module _ {E S : Type 0} (view : S → List E) where
  pub record Silent {A : Type 0} (m : Go S A) : Type 0 where
    pub at : (s : S) → (view (m s).1 ≡ view s) × ((m s).0 ≢ panic)

  pub record Gives {A : Type 0} (m : Go S A) (P : A → Type 0) : Type 0 where
    pub at : (s : S) → (a : A) × ((m s).0 ≡ ok a) × (view (m s).1 ≡ view s) × P a

  pub record Marks {A : Type 0} (m : Go S A) (es : List E) : Type 0 where
    pub at : (s : S) → (view (m s).1 ≡ view s ++ es) × ((m s).0 ≢ panic)

  pub record Runs {A : Type 0} (m : Go S A) (Q : A → List E → Type 0) : Type 0 where
    pub at :
        (s : S)
        → (a : A) × (es : List E) × ((m s).0 ≡ ok a) × (view (m s).1 ≡ view s ++ es) × Q a es

-- A value is returned, and exactly the calls `es` show.
abbrev pub Emits : {E S A : Type 0} → (S → List E) → Go S A → List E → Type 0
Emits view m es = Runs view m (λ a fs. fs ≡ es)

pub wrap_error-panic :
    {A : Type 0} (t : String) (r : Outcome A) → r ≢ panic → wrap_error t r ≢ panic
wrap_error-panic t (ok a) n h = cc
wrap_error-panic t (err e) n h = cc
wrap_error-panic t panic n h = n refl

pub restate_error-panic :
    {A : Type 0} (t : String) (r : Outcome A) → r ≢ panic → restate_error t r ≢ panic
restate_error-panic t (ok a) n h = cc
restate_error-panic t (err e) n h = cc
restate_error-panic t panic n h = n refl

pub attempted-panic : {A : Type 0} (r : Outcome A) → r ≢ panic → attempted r ≢ panic
attempted-panic (ok a) n h = cc
attempted-panic (err e) n h = cc
attempted-panic panic n h = n refl

pub attempted-value :
    {A : Type 0} (r : Outcome A) → r ≢ panic → (x : A ⊎ Error) × (attempted r ≡ ok x)
attempted-value (ok a) n = (inl a, refl)
attempted-value (err e) n = (inr e, refl)
attempted-value panic n = absurd (n refl)

pub ok-value : {A : Type 0} {a b : A} → ok a ≡ ok b → a ≡ b
ok-value e = cc

module _ {E S : Type 0} {view : S → List E} where
  module _ {A : Type 0} where
    pub Silent-pure : (a : A) → Silent view (pure a)
    unfolding ◌>>=◌
    Silent-pure a = record { at = λ s. (refl, λ h. cc) }

    pub Silent-fail : (e : Error) → Silent view (fail {A = A} e)
    unfolding ◌>>=◌
    Silent-fail e = record { at = λ s. (refl, λ h. cc) }

    pub Silent-or_fail : (e : Error) (o : Option A) → Silent view (or_fail e o)
    unfolding ◌>>=◌
    Silent-or_fail e none = record { at = λ s. (refl, λ h. cc) }
    Silent-or_fail e (some a) = record { at = λ s. (refl, λ h. cc) }

    pub Silent-wrapping : (t : String) (m : Go S A) → Silent view m → Silent view (wrapping t m)
    unfolding ◌>>=◌
    Silent-wrapping t m k = record { at = λ s. ((k.at s).0, wrap_error-panic t (m s).0 (k.at s).1) }

    pub Silent-restating : (t : String) (m : Go S A) → Silent view m → Silent view (restating t m)
    unfolding ◌>>=◌
    Silent-restating t m k = record {
      at = λ s. ((k.at s).0, restate_error-panic t (m s).0 (k.at s).1);
    }

    pub Silent-attempt : (m : Go S A) → Silent view m → Silent view (attempt m)
    unfolding ◌>>=◌
    Silent-attempt m k = record { at = λ s. ((k.at s).0, attempted-panic (m s).0 (k.at s).1) }

    pub Silent-if :
        (b : Bool) (m n : Go S A) → Silent view m → Silent view n → Silent view (if b then m else n)
    Silent-if true m n km kn = km
    Silent-if false m n km kn = kn

    pub Silent-Gives : {P : A → Type 0} (m : Go S A) → Gives view m P → Silent view m
    Silent-Gives m k = record { at = λ s. let (a, e, v, p) = k.at s in (v, λ h. cc) }

  module _ {A B : Type 0} where
    pub bind_outcome-Silent :
        (r : Outcome A) (f : A → Go S B) (s : S)
        → r ≢ panic
        → ((a : A) → Silent view (f a))
        → (view (bind_outcome r f s).1 ≡ view s) × ((bind_outcome r f s).0 ≢ panic)
    bind_outcome-Silent (ok a) f s n k = (k a).at s
    bind_outcome-Silent (err e) f s n k = (refl, λ h. cc)
    bind_outcome-Silent panic f s n k = absurd (n refl)

    pub Silent-bind :
        (m : Go S A) (f : A → Go S B)
        → Silent view m
        → ((a : A) → Silent view (f a))
        → Silent view (m >>= f)
    unfolding ◌>>=◌
    Silent-bind m f km kf = record {
      at = λ s.
          let (v, n) = km.at s in
          let (w, o) = bind_outcome-Silent (m s).0 f (m s).1 n kf in (w ∙ v, o);
    }

  module _ {A B : Type 0} where
    -- `v, err := f()`, with a branch for each.
    pub Silent-handle :
        (m : Go S A) (f : A ⊎ Error → Go S B)
        → Silent view m
        → ((a : A) → Silent view (f (inl a)))
        → ((e : Error) → Silent view (f (inr e)))
        → Silent view (attempt m >>= f)
    Silent-handle m f km ka ke = Silent-bind (attempt m) f (Silent-attempt m km) branch
      where
        branch : (r : A ⊎ Error) → Silent view (f r)
        branch (inl a) = ka a
        branch (inr e) = ke e

  pub attempt-Gives : {A : Type 0} (m : Go S A) → Silent view m → Gives view (attempt m) (λ x. Unit)
  unfolding ◌>>=◌
  attempt-Gives m k = record {
    at = λ s. let (v, n) = k.at s in let (x, e) = attempted-value (m s).0 n in (x, e, v, tt);
  }

  pub Gives-deref :
      {A : Type 0} (o : Option A) (a : A) → o ≡ some a → Gives view (deref o) (λ x. x ≡ a)
  unfolding ◌>>=◌
  Gives-deref none a e = cc
  Gives-deref (some b) a e = record { at = λ s. (b, refl, refl, cc) }

  module _ {A : Type 0} {P : A → Type 0} where
    pub Gives-pure : (a : A) → P a → Gives view (pure a) P
    unfolding ◌>>=◌
    Gives-pure a p = record { at = λ s. (a, refl, refl, p) }

    pub Gives-if :
        (b : Bool) (m n : Go S A)
        → Gives view m P
        → Gives view n P
        → Gives view (if b then m else n) P
    Gives-if true m n km kn = km
    Gives-if false m n km kn = kn

  module _ {A B : Type 0} {P : B → Type 0} where
    bind_outcome-Gives :
        (r : Outcome A) (f : A → Go S B) (s : S) (a : A)
        → r ≡ ok a
        → ((x : A) → r ≡ ok x → Gives view (f x) P)
        → (b : B) × ((bind_outcome r f s).0 ≡ ok b) × (view (bind_outcome r f s).1 ≡ view s) × P b
    bind_outcome-Gives (ok x) f s a e k = (k x refl).at s
    bind_outcome-Gives (err x) f s a e k = cc
    bind_outcome-Gives panic f s a e k = cc

    -- The value of the first part may be used.
    pub Gives-bind :
        {R : A → Type 0} (m : Go S A) (f : A → Go S B)
        → Gives view m R
        → ((a : A) → R a → Gives view (f a) P)
        → Gives view (m >>= f) P
    unfolding ◌>>=◌
    Gives-bind {R} m f km kf = record {
      at = λ s.
          let (a, e, v, r) = km.at s in
          let (b, e', v', p) =
            bind_outcome-Gives (m s).0 f (m s).1 a e
              (λ x h. kf x (let same : ok a ≡ ok x = sym e ∙ h in rw (← ok-value same) r)) in
          (b, e', v' ∙ v, p);
    }

  module _ {A B : Type 0} {P : B → Type 0} where
    pub Gives-attempt :
        (m : Go S A) (f : A ⊎ Error → Go S B)
        → Silent view m
        → ((x : A ⊎ Error) → Gives view (f x) P)
        → Gives view (attempt m >>= f) P
    Gives-attempt m f km kf = Gives-bind (attempt m) f (attempt-Gives m km) (λ x h. kf x)

    pub Gives-handle :
        (m : Go S A) (f : A ⊎ Error → Go S B)
        → Silent view m
        → ((a : A) → Gives view (f (inl a)) P)
        → ((e : Error) → Gives view (f (inr e)) P)
        → Gives view (attempt m >>= f) P
    Gives-handle m f km ka ke = Gives-attempt m f km branch
      where
        branch : (r : A ⊎ Error) → Gives view (f r) P
        branch (inl a) = ka a
        branch (inr e) = ke e

    pub Gives-checking :
        (stop : Error → B) (m : Go S A) (f : A → Go S B)
        → Silent view m
        → ((e : Error) → P (stop e))
        → ((a : A) → Gives view (f a) P)
        → Gives view (checking stop m f) P
    Gives-checking stop m f km ks kf =
        Gives-handle m (checked stop f) km kf (λ e. Gives-pure (stop e) (ks e))

pub ruleset silent_rules = (
  Silent-pure, Silent-fail, Silent-or_fail, Silent-wrapping, Silent-restating, Silent-attempt,
  Silent-if, Silent-handle, Silent-bind,
)
