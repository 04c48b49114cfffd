-- ===== src/Runtime/Reports.antt =====
-- Lookups that show: `Reports` is a computation that does not panic and shows what it has found.
use promo_collection.Prelude.{◌≡◌, refl, sym, ap, ◌∙◌, ◌⊎◌, inl, inr, List, ◌++◌}
use promo_collection.Runtime.Effects.{
  Outcome, ok, err, panic, Go, Error, pure, fail, attempt, attempted, ◌>>=◌, bind_outcome,
}
use promo_collection.Runtime.Runs.{Runs, ok-value}
use promo_collection.Runtime.Runs.Calls.{Runs-bind}

module _ {E S : Type 0} (view : S → List E) where
  pub record Reports {A : Type 0} (m : Go S A) (g : A ⊎ Error → List E) : Type 0 where
    pub at : (s : S) → (x : A ⊎ Error) × (attempted (m s).0 ≡ ok x) × (view (m s).1 ≡ view s ++ g x)

  -- Nothing shows, and the outcome `y` is one of which `h` says `es`.
  pub record Resolves {A : Type 0} (m : Go S A) (h : A ⊎ Error → List E) (es : List E)
      : Type 0 where
    pub at :
        (s : S)
        → (y : A ⊎ Error) × (attempted (m s).0 ≡ ok y) × (view (m s).1 ≡ view s) × (h y ≡ es)

module _ {E S A B : Type 0} (view : S → List E) (g : A ⊎ Error → List E)
    (h : B ⊎ Error → List E) where
  mapped-Reports :
      (v : List E) (r : Outcome A) (f : A → B) (s : S) (x : A ⊎ Error)
      → attempted r ≡ ok x
      → view s ≡ v ++ g x
      → ((a : A) → h (inl (f a)) ≡ g (inl a))
      → ((e : Error) → h (inr e) ≡ g (inr e))
      → (y : B ⊎ Error) × (attempted (bind_outcome {0, 0, 0} r (λ a. pure (f a)) s).0 ≡ ok y)
        × (view (bind_outcome {0, 0, 0} r (λ a. pure (f a)) s).1 ≡ v ++ h y)
  unfolding ◌>>=◌
  mapped-Reports v (ok a) f s x e w ka ke =
      (inl (f a), refl, w ∙ ap (λ es. v ++ es) (ap g (sym (ok-value e)) ∙ sym (ka a)))
  mapped-Reports v (err z) f s x e w ka ke =
      (inr z, refl, w ∙ ap (λ es. v ++ es) (ap g (sym (ok-value e)) ∙ sym (ke z)))
  mapped-Reports v panic f s x e w ka ke = cc

module _ {E S : Type 0} {view : S → List E} where
  module _ {A : Type 0} {h : A ⊎ Error → List E} where
    pub Resolves-pure : (a : A) (es : List E) → h (inl a) ≡ es → Resolves view (pure a) h es
    unfolding ◌>>=◌
    Resolves-pure a es e = record { at = λ s. (inl a, refl, refl, e) }

    pub Resolves-fail : (x : Error) (es : List E) → h (inr x) ≡ es → Resolves view (fail x) h es
    unfolding ◌>>=◌
    Resolves-fail x es e = record { at = λ s. (inr x, refl, refl, e) }

    attempt-Reports : (m : Go S A) → Reports view m h → Runs view (attempt m) (λ x es. es ≡ h x)
    unfolding ◌>>=◌
    attempt-Reports m k = record { at = λ s. let (x, e, v) = k.at s in (x, h x, e, v, refl) }

    -- After a lookup that shows what it has found.
    pub Runs-reported :
        {B : Type 0} {Q : B → List E → Type 0} (m : Go S A) (f : A ⊎ Error → Go S B)
        → Reports view m h
        → ((x : A ⊎ Error) → Runs view (f x) (λ b fs. Q b (h x ++ fs)))
        → Runs view (attempt m >>= f) Q
    Runs-reported m f km kf =
        Runs-bind (λ x es. es ≡ h x) (attempt m) f (attempt-Reports m km) (λ x es e. rw e (kf x))

  module _ {A B : Type 0} {g : A ⊎ Error → List E} {h : B ⊎ Error → List E} where
    bound-Reports :
        (v : List E) (r : Outcome A) (f : A ⊎ Error → Go S B) (s : S) (x : A ⊎ Error)
        → attempted r ≡ ok x
        → view s ≡ v ++ g x
        → ((y : A ⊎ Error) → Resolves view (f y) h (g y))
        → (y : B ⊎ Error) × (attempted (bind_outcome {0, 0, 0} (attempted r) f s).0 ≡ ok y)
          × (view (bind_outcome {0, 0, 0} (attempted r) f s).1 ≡ v ++ h y)
    bound-Reports v r f s x e w k =
        let (y, o, u, same) = (k x).at s in rw e (y, o, u ∙ w ∙ ap (λ es. v ++ es) (sym same))

    -- A lookup whose result is judged by what follows.
    pub Reports-judged :
        (m : Go S A) (f : A ⊎ Error → Go S B)
        → Reports view m g
        → ((x : A ⊎ Error) → Resolves view (f x) h (g x))
        → Reports view (attempt m >>= f) h
    unfolding ◌>>=◌
    Reports-judged m f km k = record {
      at = λ s. let (x, e, v) = km.at s in bound-Reports (view s) (m s).0 f (m s).1 x e v k;
    }

    -- A lookup whose value is computed with.
    pub Reports-mapped :
        (m : Go S A) (f : A → B)
        → Reports view m g
        → ((a : A) → h (inl (f a)) ≡ g (inl a))
        → ((e : Error) → h (inr e) ≡ g (inr e))
        → Reports view (m >>= λ a. pure (f a)) h
    unfolding ◌>>=◌
    Reports-mapped m f km ka ke = record {
      at = λ s.
          let (x, e, v) = km.at s in mapped-Reports view g h (view s) (m s).0 f (m s).1 x e v ka ke;
    }
