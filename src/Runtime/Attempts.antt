-- ===== src/Runtime/Attempts.antt =====
-- Computations that may fail before anything shows, and how a chain of them ends: `Settles` is a
-- computation that shows nothing and fails or returns a value of which `P` holds.
use promo_collection.Prelude.{
  ◌≡◌, ◌≢◌, refl, sym, subst, ap, ◌∙◌, ◌⊎◌, inl, inr, String, Bool, true, false, Option, none, some,
  List, [], ◌∷◌, ◌++◌, if◌then◌else◌,
}
use mathlib.Core.List.{append-nil}
use promo_collection.Runtime.Effects.{
  Outcome, ok, err, panic, Go, Error, pure, fail, attempt, attempted, or_fail, wrapping, wrap_error,
  wrapped, ◌>>=◌, bind_outcome,
}
use promo_collection.Runtime.Runs.{Gives, Silent, Marks, Runs, ok-value}

-- The outcome is a failure, or a value of which `P` holds.
abbrev pub IsSettled : {A : Type 0} → (A → Type 0) → Outcome A → Type 0
IsSettled {A} P r = ((a : A) × (r ≡ ok a) × P a) ⊎ ((e : Error) × (r ≡ err e))

module _ {E S : Type 0} (view : S → List E) where
  pub record Settles {A : Type 0} (m : Go S A) (P : A → Type 0) : Type 0 where
    pub at : (s : S) → (view (m s).1 ≡ view s) × IsSettled P (m s).0

Silent-IsSettled : {A : Type 0} (r : Outcome A) → r ≢ panic → IsSettled (λ a. Unit) r
Silent-IsSettled (ok a) n = inl (a, refl, tt)
Silent-IsSettled (err e) n = inr (e, refl)
Silent-IsSettled panic n = absurd (n refl)

wrap_error-IsSettled :
    {A : Type 0} {P : A → Type 0} (t : String) (r : Outcome A)
    → IsSettled P r
    → IsSettled P (wrap_error t r)
wrap_error-IsSettled t (ok a) k = k
wrap_error-IsSettled t (err e) k = inr (wrapped t e, refl)
wrap_error-IsSettled t panic (inl (a, e, p)) = cc
wrap_error-IsSettled t panic (inr (x, e)) = cc

bind_outcome-dropped :
    {S A : Type 0} (r : Outcome A) (s : S)
    → r ≢ panic
    → (x : (Unit {0}) ⊎ Error) × (attempted (bind_outcome {0, 0, 0} r (λ a. pure tt) s).0 ≡ ok x)
      × ((bind_outcome {0, 0, 0} r (λ a. pure tt) s).1 ≡ s)
unfolding ◌>>=◌
bind_outcome-dropped (ok a) s n = (inl tt, refl, refl)
bind_outcome-dropped (err e) s n = (inr e, refl, refl)
bind_outcome-dropped panic s n = absurd (n refl)

module _ {E S : Type 0} {view : S → List E} where
  pub Settles-Silent : {A : Type 0} (m : Go S A) → Silent view m → Settles view m (λ a. Unit)
  Settles-Silent m k = record { at = λ s. let (v, n) = k.at s in (v, Silent-IsSettled (m s).0 n) }

  module _ {A : Type 0} {P : A → Type 0} where
    pub Settles-pure : (a : A) → P a → Settles view (pure a) P
    unfolding ◌>>=◌
    Settles-pure a p = record { at = λ s. (refl, inl (a, refl, p)) }

    pub Settles-fail : (e : Error) → Settles view (fail e) P
    unfolding ◌>>=◌
    Settles-fail e = record { at = λ s. (refl, inr (e, refl)) }

    pub Settles-or_fail :
        (e : Error) (o : Option A) → ((a : A) → o ≡ some a → P a) → Settles view (or_fail e o) P
    unfolding ◌>>=◌
    Settles-or_fail e none k = record { at = λ s. (refl, inr (e, refl)) }
    Settles-or_fail e (some a) k = record { at = λ s. (refl, inl (a, refl, k a refl)) }

    pub Settles-wrapping :
        (t : String) (m : Go S A) → Settles view m P → Settles view (wrapping t m) P
    unfolding ◌>>=◌
    Settles-wrapping t m k = record {
      at = λ s. let (v, r) = k.at s in (v, wrap_error-IsSettled t (m s).0 r);
    }

    pub Settles-if :
        (b : Bool) (m n : Go S A)
        → Settles view m P
        → Settles view n P
        → Settles view (if b then m else n) P
    Settles-if true m n km kn = km
    Settles-if false m n km kn = kn

  module _ {A B : Type 0} {P : A → Type 0} {R : B → Type 0} where
    bind_outcome-Settles :
        (r : Outcome A) (f : A → Go S B) (s : S)
        → IsSettled P r
        → ((a : A) → P a → Settles view (f a) R)
        → (view (bind_outcome r f s).1 ≡ view s) × IsSettled R (bind_outcome r f s).0
    bind_outcome-Settles (ok a) f s (inl (b, e, p)) k = (k a (subst P (sym (ok-value e)) p)).at s
    bind_outcome-Settles (ok a) f s (inr (x, e)) k = cc
    bind_outcome-Settles (err x) f s h k = (refl, inr (x, refl))
    bind_outcome-Settles panic f s (inl (a, e, p)) k = cc
    bind_outcome-Settles panic f s (inr (x, e)) k = cc

    pub Settles-bind :
        (m : Go S A) (f : A → Go S B)
        → Settles view m P
        → ((a : A) → P a → Settles view (f a) R)
        → Settles view (m >>= f) R
    unfolding ◌>>=◌
    Settles-bind m f km kf = record {
      at = λ s.
          let (v, r) = km.at s in
          let (w, t) = bind_outcome-Settles (m s).0 f (m s).1 r kf in (w ∙ v, t);
    }

  module _ {A B : Type 0} {P : A → Type 0} {Q : B ⊎ Error → List E → Type 0} where
    bind_outcome-attempted :
        (v : List E) (r : Outcome A) (f : A → Go S B) (s : S)
        → view s ≡ v
        → IsSettled P r
        → ((a : A) → P a → Runs view (attempt (f a)) Q)
        → ((e : Error) → Q (inr e) [])
        → (x : B ⊎ Error) × (es : List E) × (attempted (bind_outcome r f s).0 ≡ ok x)
          × (view (bind_outcome r f s).1 ≡ v ++ es)
          × Q x es
    unfolding ◌>>=◌
    bind_outcome-attempted v (ok a) f s h (inl (b, e, p)) ka ke =
        let (x, es, o, w, q) = (ka a (subst P (sym (ok-value e)) p)).at s in
        (x, es, o, w ∙ ap (λ xs. xs ++ es) h, q)
    bind_outcome-attempted v (ok a) f s h (inr (x, e)) ka ke = cc
    bind_outcome-attempted v (err x) f s h k ka ke = (inr x, [], refl, h ∙ sym (append-nil v), ke x)
    bind_outcome-attempted v panic f s h (inl (a, e, p)) ka ke = cc
    bind_outcome-attempted v panic f s h (inr (x, e)) ka ke = cc

    -- The chain ends at the first failure.
    pub Runs-attempting :
        (m : Go S A) (f : A → Go S B)
        → Settles view m P
        → ((a : A) → P a → Runs view (attempt (f a)) Q)
        → ((e : Error) → Q (inr e) [])
        → Runs view (attempt (m >>= f)) Q
    unfolding ◌>>=◌
    Runs-attempting m f km ka ke = record {
      at = λ s. let (v, r) = km.at s in bind_outcome-attempted (view s) (m s).0 f (m s).1 v r ka ke;
    }

  -- A last call that shows, with a value that is dropped.
  module _ {A : Type 0} {es : List E} {Q : (Unit {0}) ⊎ Error → List E → Type 0} where
    pub Runs-attempting_last :
        (m : Go S A)
        → Marks view m es
        → ((x : (Unit {0}) ⊎ Error) → Q x es)
        → Runs view (attempt (m >>= λ a. pure tt)) Q
    unfolding ◌>>=◌
    Runs-attempting_last m km k = record {
      at = λ s.
          let (v, n) = km.at s in
          let (x, e, w) = bind_outcome-dropped (m s).0 (m s).1 n in (x, es, e, ap view w ∙ v, k x);
    }

-- Either the call succeeds and shows `e`, or it fails and shows nothing.
abbrev pub IsDelivery : {E S : Type 0} → (S → List E) → Go S (Unit {0}) → E → S → Type 0
IsDelivery view m e s =
    (((m s).0 ≡ ok tt) × (view (m s).1 ≡ view s ++ (e ∷ [])))
    ⊎ ((x : Error) × ((m s).0 ≡ err x) × (view (m s).1 ≡ view s))

pub record Delivers {E S : Type 0} (view : S → List E) (m : Go S (Unit {0})) (e : E) : Type 0 where
  pub at : (s : S) → IsDelivery view m e s

-- What an attempt to deliver gives and shows.
abbrev pub Attempted : {E : Type 0} → E → (Unit {0}) ⊎ Error → List E → Type 0
Attempted e (inl u) es = es ≡ e ∷ []
Attempted e (inr x) es = es ≡ []

module _ {E S : Type 0} (view : S → List E) where
  delivery-Attempted :
      (m : Go S (Unit {0})) (e : E) (s : S)
      → IsDelivery view m e s
      → (x : (Unit {0}) ⊎ Error) × (es : List E) × (attempted (m s).0 ≡ ok x)
        × (view (m s).1 ≡ view s ++ es)
        × Attempted e x es
  delivery-Attempted m e s (inl (h, v)) = (inl tt, e ∷ [], ap attempted h, v, refl)
  delivery-Attempted m e s (inr (x, h, v)) =
      (inr x, [], ap attempted h, v ∙ sym (append-nil (view s)), refl)

  given_outcome-IsDelivery :
      {A : Type 0} (e : E) (r : Outcome A) (a : A) (f : A → Go S (Unit {0})) (s : S) (v : List E)
      → r ≡ ok a
      → view s ≡ v
      → IsDelivery view (f a) e s
      → (((bind_outcome {0, 0, 0} r f s).0 ≡ ok tt)
          × (view (bind_outcome {0, 0, 0} r f s).1 ≡ v ++ (e ∷ [])))
        ⊎ ((x : Error) × ((bind_outcome {0, 0, 0} r f s).0 ≡ err x)
            × (view (bind_outcome {0, 0, 0} r f s).1 ≡ v))
  given_outcome-IsDelivery e r a f s v h w k = rw h (rw (← w) k)

module _ {E S : Type 0} {view : S → List E} where
  pub attempt-Attempted :
      {e : E} (m : Go S (Unit {0})) → Delivers view m e → Runs view (attempt m) (Attempted e)
  unfolding ◌>>=◌
  attempt-Attempted {e} m k = record { at = λ s. delivery-Attempted view m e s (k.at s) }

  -- After a value that is read.
  pub Delivers-after :
      {A : Type 0} {e : E} {P : A → Type 0} (m : Go S A) (f : A → Go S (Unit {0}))
      → Gives view m P
      → ((a : A) → Delivers view (f a) e)
      → Delivers view (m >>= f) e
  unfolding ◌>>=◌
  Delivers-after {e = e} m f km kf = record {
    at = λ s.
        let (a, h, v, p) = km.at s in
        given_outcome-IsDelivery view e (m s).0 a f (m s).1 (view s) h v ((kf a).at (m s).1);
  }
