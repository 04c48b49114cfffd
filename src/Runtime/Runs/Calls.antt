-- ===== src/Runtime/Runs/Calls.antt =====
-- What shows in the log of calls, step by step.
use promo_collection.Prelude.{◌≡◌, refl, sym, subst, ap, ◌∙◌, ◌⊎◌, inl, inr, String, List, [], ◌++◌}
use mathlib.Core.List.{append_assoc, append-nil}
use promo_collection.Runtime.Effects.{
  Outcome, ok, err, panic, Go, Error, pure, wrapping, restating, attempt, attempted, ◌>>=◌,
  bind_outcome,
}
use promo_collection.Runtime.Runs.{
  Silent, Gives, Marks, Runs, Emits, wrap_error-panic, restate_error-panic, attempted-panic,
  attempted-value, ok-value, bind_outcome-Silent, attempt-Gives,
}

module _ {E S : Type 0} {view : S → List E} where
  module _ {A : Type 0} {es : List E} where
    pub Marks-restating :
        (t : String) (m : Go S A) → Marks view m es → Marks view (restating t m) es
    unfolding ◌>>=◌
    Marks-restating t m k = record {
      at = λ s. ((k.at s).0, restate_error-panic t (m s).0 (k.at s).1);
    }

    pub Marks-wrapping : (t : String) (m : Go S A) → Marks view m es → Marks view (wrapping t m) es
    unfolding ◌>>=◌
    Marks-wrapping t m k = record { at = λ s. ((k.at s).0, wrap_error-panic t (m s).0 (k.at s).1) }

    pub Marks-Emits : (m : Go S A) → Emits view m es → Marks view m es
    Marks-Emits m k = record {
      at = λ s. let (a, fs, e, v, same) = k.at s in (v ∙ ap (λ xs. view s ++ xs) same, λ h. cc);
    }

    pub Marks-attempt : (m : Go S A) → Marks view m es → Marks view (attempt m) es
    unfolding ◌>>=◌
    Marks-attempt m k = record { at = λ s. ((k.at s).0, attempted-panic (m s).0 (k.at s).1) }

    -- What follows shows nothing.
    pub Marks-bind :
        {B : Type 0} (m : Go S A) (f : A → Go S B)
        → Marks view m es
        → ((a : A) → Silent view (f a))
        → Marks view (m >>= f) es
    unfolding ◌>>=◌
    Marks-bind m f km kf = record {
      at = λ s.
          let (v, n) = km.at s in
          let (w, o) = bind_outcome-Silent (m s).0 f (m s).1 n kf in (w ∙ v, o);
    }

  module _ {A : Type 0} {Q : A → List E → Type 0} where
    pub Runs-pure : (a : A) → Q a [] → Runs view (pure a) Q
    unfolding ◌>>=◌
    Runs-pure a q = record { at = λ s. (a, [], refl, sym (append-nil (view s)), q) }

    pub Runs-Gives :
        {P : A → Type 0} (m : Go S A) → Gives view m P → ((a : A) → P a → Q a []) → Runs view m Q
    Runs-Gives m k h = record {
      at = λ s. let (a, e, v, p) = k.at s in (a, [], e, v ∙ sym (append-nil (view s)), h a p);
    }

  module _ {A B : Type 0} {Q : B → List E → Type 0} where
    bind_outcome-Runs :
        (R : A → List E → Type 0) (v : List E) (r : Outcome A) (f : A → Go S B) (s : S) (a : A)
        (es : List E)
        → r ≡ ok a
        → view s ≡ v ++ es
        → R a es
        → ((x : A) (fs : List E) → R x fs → Runs view (f x) (λ b gs. Q b (fs ++ gs)))
        → (b : B) × (gs : List E) × ((bind_outcome r f s).0 ≡ ok b)
          × (view (bind_outcome r f s).1 ≡ v ++ gs)
          × Q b gs
    bind_outcome-Runs R v (ok x) f s a es e h q k =
        let (b, gs, e', w, p) = (k x es (rw (ok-value e) q)).at s in
        (b, es ++ gs, e', w ∙ ap (λ xs. xs ++ gs) h ∙ append_assoc v es gs, p)
    bind_outcome-Runs R v (err x) f s a es e h q k = cc
    bind_outcome-Runs R v panic f s a es e h q k = cc

    -- The calls of the first part, then those of the second.
    pub Runs-bind :
        (R : A → List E → Type 0) (m : Go S A) (f : A → Go S B)
        → Runs view m R
        → ((a : A) (es : List E) → R a es → Runs view (f a) (λ b fs. Q b (es ++ fs)))
        → Runs view (m >>= f) Q
    unfolding ◌>>=◌
    Runs-bind R m f km kf = record {
      at = λ s.
          let (a, es, e, v, r) = km.at s in
          bind_outcome-Runs R (view s) (m s).0 f (m s).1 a es e v r kf;
    }

    pub Runs-emitted :
        {es : List E} (m : Go S A) (f : A → Go S B)
        → Emits view m es
        → ((a : A) → Runs view (f a) (λ b fs. Q b (es ++ fs)))
        → Runs view (m >>= f) Q
    Runs-emitted {es} m f km kf = Runs-bind (λ a fs. fs ≡ es) m f km (λ a fs h. rw h (kf a))

    -- After a first part that shows nothing.
    pub Runs-given :
        {P : A → Type 0} (m : Go S A) (f : A → Go S B)
        → Gives view m P
        → ((a : A) → P a → Runs view (f a) Q)
        → Runs view (m >>= f) Q
    Runs-given {P} m f km kf =
        Runs-bind (λ a es. P a × (es ≡ [])) m f (Runs-Gives m km (λ a p. (p, refl)))
          (λ a es h. rw h.1 (kf a h.0))

  Runs-attempt_marked :
      {A : Type 0} {es : List E} (m : Go S A)
      → Marks view m es
      → Runs view (attempt m) (λ x fs. fs ≡ es)
  unfolding ◌>>=◌
  Runs-attempt_marked {es} m k = record {
    at = λ s. let (v, n) = k.at s in let (x, e) = attempted-value (m s).0 n in (x, es, e, v, refl);
  }

  module _ {A B : Type 0} {Q : B → List E → Type 0} where
    pub Runs-attempt :
        (m : Go S A) (f : A ⊎ Error → Go S B)
        → Silent view m
        → ((x : A ⊎ Error) → Runs view (f x) Q)
        → Runs view (attempt m >>= f) Q
    Runs-attempt m f km kf = Runs-given (attempt m) f (attempt-Gives m km) (λ x p. kf x)

    pub Runs-handle :
        (m : Go S A) (f : A ⊎ Error → Go S B)
        → Silent view m
        → ((a : A) → Runs view (f (inl a)) Q)
        → ((e : Error) → Runs view (f (inr e)) Q)
        → Runs view (attempt m >>= f) Q
    Runs-handle m f km ka ke = Runs-attempt m f km branch
      where
        branch : (r : A ⊎ Error) → Runs view (f r) Q
        branch (inl a) = ka a
        branch (inr e) = ke e

    -- After a call that shows, whatever its outcome.
    pub Runs-marked :
        {es : List E} (m : Go S A) (f : A ⊎ Error → Go S B)
        → Marks view m es
        → ((a : A) → Runs view (f (inl a)) (λ b fs. Q b (es ++ fs)))
        → ((e : Error) → Runs view (f (inr e)) (λ b fs. Q b (es ++ fs)))
        → Runs view (attempt m >>= f) Q
    Runs-marked {es} m f km ka ke =
        Runs-bind (λ x fs. fs ≡ es) (attempt m) f (Runs-attempt_marked m km)
          (λ x fs h. rw h (branch x))
      where
        branch : (x : A ⊎ Error) → Runs view (f x) (λ b fs. Q b (es ++ fs))
        branch (inl a) = ka a
        branch (inr e) = ke e

    -- The same, where what was returned is dropped.
    pub Runs-called :
        {es : List E} (m : Go S A) (f : A ⊎ Error → Go S B)
        → Marks view m es
        → ((x : A ⊎ Error) → Runs view (f x) (λ b fs. Q b (es ++ fs)))
        → Runs view (attempt m >>= f) Q
    Runs-called m f km kf = Runs-marked m f km (λ a. kf (inl a)) (λ e. kf (inr e))

  -- A last step that returns what the first part has found.
  pub Runs-last :
      {A B : Type 0} {Q : B → List E → Type 0} (R : A → List E → Type 0) (m : Go S A) (g : A → B)
      → Runs view m R
      → ((a : A) (es : List E) → R a es → Q (g a) es)
      → Runs view (m >>= λ a. pure (g a)) Q
  Runs-last {Q = Q} R m g km h =
      Runs-bind R m (λ a. pure (g a)) km
        (λ a es r. Runs-pure (g a) (subst (λ xs. Q (g a) xs) (sym (append-nil es)) (h a es r)))

  pub Runs-attempted :
      {A : Type 0} {Q : A ⊎ Error → List E → Type 0} (R : A → List E → Type 0) (m : Go S A)
      → Runs view m R
      → ((a : A) (es : List E) → R a es → Q (inl a) es)
      → Runs view (attempt m) Q
  unfolding ◌>>=◌
  Runs-attempted R m k h = record {
    at = λ s. let (a, es, e, v, r) = k.at s in (inl a, es, ap attempted e, v, h a es r);
  }

  pub Runs-weaken :
      {A : Type 0} {Q R : A → List E → Type 0} (m : Go S A)
      → Runs view m R
      → ((a : A) (es : List E) → R a es → Q a es)
      → Runs view m Q
  Runs-weaken m k h = record { at = λ s. let (a, es, e, v, r) = k.at s in (a, es, e, v, h a es r) }
