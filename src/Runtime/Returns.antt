-- ===== src/Runtime/Returns.antt =====
-- What is known of the value that a computation returns, if it returns one.
use promo_collection.Prelude.{
  ◌≡◌, refl, ◌∙◌, String, Bool, true, false, Option, none, some, if◌then◌else◌,
}
use promo_collection.Runtime.Effects.{
  Outcome, ok, err, panic, Go, Error, pure, fail, or_fail, wrapping, wrap_error, restating,
  restate_error, ◌>>=◌, bind_outcome,
}
use promo_collection.Runtime.Keeps.{Keeps, Ends, Ends-bind}

-- Whatever value `m` returns, `P` holds of it.
pub record Returns {S A : Type 0} (P : A → Type 0) (m : Go S A) : Type 0 where
  pub value : (s : S) (a : A) → (m s).0 ≡ ok a → P a

pub ok-injective : {A : Type 0} {a b : A} → ok a ≡ ok b → a ≡ b
ok-injective e = cc

wrap_error-value :
    {A : Type 0} (t : String) (r : Outcome A) (a : A) → wrap_error t r ≡ ok a → r ≡ ok a
wrap_error-value t (ok b) a e = e
wrap_error-value t (err x) a e = cc
wrap_error-value t panic a e = cc

restate_error-value :
    {A : Type 0} (t : String) (r : Outcome A) (a : A) → restate_error t r ≡ ok a → r ≡ ok a
restate_error-value t (ok b) a e = e
restate_error-value t (err x) a e = cc
restate_error-value t panic a e = cc

bind_outcome-value :
    {S A B : Type 0} (r : Outcome A) (f : A → Go S B) (s : S) (b : B)
    → (bind_outcome r f s).0 ≡ ok b
    → (a : A) × (r ≡ ok a) × ((f a s).0 ≡ ok b)
bind_outcome-value (ok a) f s b e = (a, refl, e)
bind_outcome-value (err x) f s b e = cc
bind_outcome-value panic f s b e = cc

-- Nothing is claimed of the value.
abbrev pub Any : {A : Type 0} → A → Type 0
Any a = Unit

pub Returns-Any : {S A : Type 0} (m : Go S A) → Returns Any m
Returns-Any m = record { value = λ s a e. tt }

module _ {S A : Type 0} {P : A → Type 0} where
  pub Returns-pure : (a : A) → P a → Returns P (pure {S = S} a)
  unfolding ◌>>=◌
  Returns-pure a p = record { value = λ s b e. rw (← ok-injective e) p }

  pub Returns-fail : (x : Error) → Returns P (fail {S = S} x)
  unfolding ◌>>=◌
  Returns-fail x = record { value = λ s b e. cc }

  pub Returns-or_fail :
      (x : Error) (o : Option A) → ((a : A) → o ≡ some a → P a) → Returns P (or_fail {S = S} x o)
  unfolding ◌>>=◌
  Returns-or_fail x none p = record { value = λ s b e. cc }
  Returns-or_fail x (some a) p = record { value = λ s b e. rw (← ok-injective e) (p a refl) }

  pub Returns-wrapping : (t : String) (m : Go S A) → Returns P m → Returns P (wrapping t m)
  unfolding ◌>>=◌
  Returns-wrapping t m p = record { value = λ s a e. p.value s a (wrap_error-value t (m s).0 a e) }

  pub Returns-restating : (t : String) (m : Go S A) → Returns P m → Returns P (restating t m)
  unfolding ◌>>=◌
  Returns-restating t m p = record {
    value = λ s a e. p.value s a (restate_error-value t (m s).0 a e);
  }

  pub Returns-if :
      (b : Bool) (m n : Go S A) → Returns P m → Returns P n → Returns P (if b then m else n)
  Returns-if true m n p q = p
  Returns-if false m n p q = q

module _ {S A B : Type 0} {P : B → Type 0} where
  pub Returns-bind :
      (R : A → Type 0) (m : Go S A) (f : A → Go S B)
      → Returns R m
      → ((a : A) → R a → Returns P (f a))
      → Returns P (m >>= f)
  unfolding ◌>>=◌
  Returns-bind R m f r k = record {
    value = λ s b e.
        let (a, x, y) = bind_outcome-value (m s).0 f (m s).1 b e in
        (k a (r.value s a x)).value (m s).1 b y;
  }

abbrev pub Framed : {O A : Type 0} → (A → Type 0) → O → Outcome A → O → Type 0
Framed P v (ok a) u = P a × (u ≡ v)
Framed P v (err e) u = u ≡ v
Framed P v panic u = u ≡ v

module _ {A O : Type 0} {P : A → Type 0} where
  Framed-of : (v : O) (r : Outcome A) (u : O) → u ≡ v → ((a : A) → r ≡ ok a → P a) → Framed P v r u
  Framed-of v (ok a) u k p = (p a refl, k)
  Framed-of v (err e) u k p = k
  Framed-of v panic u k p = k

  module _ {S : Type 0} {view : S → O} where
    Ends-Returns : (v : O) (m : Go S A) → Keeps view m → Returns P m → Ends view v m (Framed P v)
    Ends-Returns v m k p = record {
      from = λ s e. Framed-of v (m s).0 (view (m s).1) (k.at s ∙ e) (p.value s);
    }

    -- A first part that leaves the observation alone and returns only values of which `P` holds.
    pub Ends-value :
        {B : Type 0} {v : O} {Q : Outcome B → O → Type 0} (m : Go S A) (f : A → Go S B)
        → Keeps view m
        → Returns P m
        → ((a : A) → P a → Ends view v (f a) Q)
        → ((e : Error) → Q (err e) v)
        → Q panic v
        → Ends view v (m >>= f) Q
    Ends-value {v = v} m f k p kf ke kp =
        Ends-bind (Framed P v) m f (Ends-Returns v m k p) (λ a u h. rw h.1 (kf a h.0))
          (λ e u h. rw h (ke e)) (λ u h. rw h kp)
