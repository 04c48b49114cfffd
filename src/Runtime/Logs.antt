-- ===== src/Runtime/Logs.antt =====
-- Reasoning about the writes that a computation makes, in their order: an observation of the outside
-- world that is a log of writes.
use promo_collection.Prelude.{◌≡◌, refl, sym, subst, ap, ◌∙◌, ◌⊎◌, inl, inr, List, [], ◌∷◌, ◌++◌}
use mathlib.Core.List.{append_assoc}
use promo_collection.Runtime.Effects.{Outcome, ok, err, panic, Go, ◌>>=◌, bind_outcome}
use promo_collection.Runtime.Keeps.{Keeps}
use promo_collection.Runtime.Returns.{Returns}

module _ {W : Type 0} where
  -- Some of the first writes of `es` have been added to `v`.
  abbrev pub Begun : List W → List W → List W → Type 0
  Begun es v u = (xs : List W) × (ys : List W) × (es ≡ xs ++ ys) × (u ≡ v ++ xs)

  -- Success adds all writes; an error or a panic comes after some of the first.
  abbrev pub Ordered : {A : Type 0} → List W → List W → Outcome A → List W → Type 0
  Ordered es v (ok a) u = u ≡ v ++ es
  Ordered es v (err e) u = Begun es v u
  Ordered es v panic u = Begun es v u

  -- Success adds all writes; an error or a panic adds none.
  abbrev pub AllOrNone : {A : Type 0} → List W → List W → Outcome A → List W → Type 0
  AllOrNone es v (ok a) u = u ≡ v ++ es
  AllOrNone es v (err e) u = u ≡ v
  AllOrNone es v panic u = u ≡ v

  -- First the writes of `tx`, all or none, then those of `es` in order.
  abbrev pub Committed : {A : Type 0} → List W → List W → List W → Outcome A → List W → Type 0
  Committed tx es v (ok a) u = u ≡ (v ++ tx) ++ es
  Committed tx es v (err e) u = (u ≡ v) ⊎ Begun es (v ++ tx) u
  Committed tx es v panic u = (u ≡ v) ⊎ Begun es (v ++ tx) u

  pub record Logs {S A : Type 0} (view : S → List W) (m : Go S A) (es : List W) : Type 0 where
    pub at : (s : S) → Ordered es (view s) (m s).0 (view (m s).1)

  pub record Atomic {S A : Type 0} (view : S → List W) (m : Go S A) (es : List W) : Type 0 where
    pub at : (s : S) → AllOrNone es (view s) (m s).0 (view (m s).1)

  pub record Commits {S A : Type 0} (view : S → List W) (m : Go S A) (tx es : List W) : Type 0 where
    pub at : (s : S) → Committed tx es (view s) (m s).0 (view (m s).1)

  append-nil : (xs : List W) → xs ≡ xs ++ []
  append-nil [] = refl
  append-nil (x ∷ xs) = ap (λ ys. x ∷ ys) (append-nil xs)

  Begun-none : (es v u : List W) → u ≡ v → Begun es v u
  Begun-none es v u e = ([], es, refl, e ∙ append-nil v)

  -- The writes of a first part, when a second part would follow.
  Begun-first : (es fs v u : List W) → Begun es v u → Begun (es ++ fs) v u
  Begun-first es fs v u (xs, ys, e, h) =
      (xs, ys ++ fs, ap (λ zs. zs ++ fs) e ∙ append_assoc xs ys fs, h)

  -- The writes of a second part, after those of the first.
  Begun-second : (es fs v w u : List W) → w ≡ v ++ es → Begun fs w u → Begun (es ++ fs) v u
  Begun-second es fs v w u k (xs, ys, e, h) = (
    es ++ xs,
    ys,
    ap (λ zs. es ++ zs) e ∙ sym (append_assoc es xs ys),
    h ∙ ap (λ zs. zs ++ xs) k ∙ append_assoc v es xs,
  )

  Ordered-second :
      {B : Type 0} (es fs v w : List W) (r : Outcome B) (u : List W)
      → w ≡ v ++ es
      → Ordered fs w r u
      → Ordered (es ++ fs) v r u
  Ordered-second es fs v w (ok b) u k h = h ∙ ap (λ zs. zs ++ fs) k ∙ append_assoc v es fs
  Ordered-second es fs v w (err e) u k h = Begun-second es fs v w u k h
  Ordered-second es fs v w panic u k h = Begun-second es fs v w u k h

  Ordered-none : {A : Type 0} (v : List W) (r : Outcome A) (u : List W) → u ≡ v → Ordered [] v r u
  Ordered-none v (ok a) u e = e ∙ append-nil v
  Ordered-none v (err x) u e = Begun-none [] v u e
  Ordered-none v panic u e = Begun-none [] v u e

  Ordered-one :
      {A : Type 0} (x : W) (v : List W) (r : Outcome A) (u : List W)
      → AllOrNone (x ∷ []) v r u
      → Ordered (x ∷ []) v r u
  Ordered-one x v (ok a) u e = e
  Ordered-one x v (err y) u e = Begun-none _ v u e
  Ordered-one x v panic u e = Begun-none _ v u e

  Committed-second :
      {B : Type 0} (tx es v w : List W) (r : Outcome B) (u : List W)
      → w ≡ v ++ tx
      → Ordered es w r u
      → Committed tx es v r u
  Committed-second tx es v w (ok b) u k h = h ∙ ap (λ zs. zs ++ es) k
  Committed-second tx es v w (err e) u k (xs, ys, e', h) =
      inr (xs, ys, e', h ∙ ap (λ zs. zs ++ xs) k)
  Committed-second tx es v w panic u k (xs, ys, e', h) = inr (xs, ys, e', h ∙ ap (λ zs. zs ++ xs) k)

  module _ {S : Type 0} {view : S → List W} where
    pub Logs-Keeps : {A : Type 0} (m : Go S A) → Keeps view m → Logs view m []
    Logs-Keeps m k = record { at = λ s. Ordered-none (view s) (m s).0 (view (m s).1) (k.at s) }

    -- One write.
    pub Logs-one : {A : Type 0} (x : W) (m : Go S A) → Atomic view m (x ∷ []) → Logs view m (x ∷ [])
    Logs-one x m h = record { at = λ s. Ordered-one x (view s) (m s).0 (view (m s).1) (h.at s) }

    module _ {A B : Type 0} where
      bind_outcome-Ordered :
          (es fs v : List W) (r : Outcome A) (f : A → Go S B) (s : S)
          → Ordered es v r (view s)
          → ((a : A) → r ≡ ok a → Logs view (f a) fs)
          → Ordered (es ++ fs) v (bind_outcome r f s).0 (view (bind_outcome r f s).1)
      bind_outcome-Ordered es fs v (ok a) f s h k =
          Ordered-second es fs v (view s) (f a s).0 (view (f a s).1) h ((k a refl).at s)
      bind_outcome-Ordered es fs v (err e) f s h k = Begun-first es fs v (view s) h
      bind_outcome-Ordered es fs v panic f s h k = Begun-first es fs v (view s) h

      pub Logs-bind :
          (m : Go S A) (f : A → Go S B) (es fs : List W)
          → Logs view m es
          → ((a : A) → Logs view (f a) fs)
          → Logs view (m >>= f) (es ++ fs)
      unfolding ◌>>=◌
      Logs-bind m f es fs h k = record {
        at = λ s. bind_outcome-Ordered es fs (view s) (m s).0 f (m s).1 (h.at s) (λ a e. k a);
      }

      -- A first part that writes nothing.
      pub Logs-frame :
          (m : Go S A) (f : A → Go S B) (fs : List W)
          → Keeps view m
          → ((a : A) → Logs view (f a) fs)
          → Logs view (m >>= f) fs
      Logs-frame m f fs h k = Logs-bind m f [] fs (Logs-Keeps m h) k

      -- A second part that writes nothing.
      pub Logs-last :
          (m : Go S A) (f : A → Go S B) (es : List W)
          → Logs view m es
          → ((a : A) → Keeps view (f a))
          → Logs view (m >>= f) es
      Logs-last m f es h k =
          subst (λ xs. Logs view (m >>= f) xs) (sym (append-nil es))
            (Logs-bind m f es [] h (λ a. Logs-Keeps (f a) (k a)))

      bind_outcome-AllOrNone :
          (es v : List W) (r : Outcome A) (f : A → Go S B) (s : S)
          → view s ≡ v
          → ((a : A) → Atomic view (f a) es)
          → AllOrNone es v (bind_outcome r f s).0 (view (bind_outcome r f s).1)
      bind_outcome-AllOrNone es v (ok a) f s h k = rw (← h) ((k a).at s)
      bind_outcome-AllOrNone es v (err e) f s h k = h
      bind_outcome-AllOrNone es v panic f s h k = h

      -- A first part that writes nothing.
      pub Atomic-frame :
          (m : Go S A) (f : A → Go S B) (es : List W)
          → Keeps view m
          → ((a : A) → Atomic view (f a) es)
          → Atomic view (m >>= f) es
      unfolding ◌>>=◌
      Atomic-frame m f es h k = record {
        at = λ s. bind_outcome-AllOrNone es (view s) (m s).0 f (m s).1 (h.at s) k;
      }

      bind_outcome-Commits :
          (tx es v : List W) (r : Outcome A) (f : A → Go S B) (s : S)
          → AllOrNone tx v r (view s)
          → ((a : A) → Logs view (f a) es)
          → Committed tx es v (bind_outcome r f s).0 (view (bind_outcome r f s).1)
      bind_outcome-Commits tx es v (ok a) f s h k =
          Committed-second tx es v (view s) (f a s).0 (view (f a s).1) h ((k a).at s)
      bind_outcome-Commits tx es v (err e) f s h k = inl h
      bind_outcome-Commits tx es v panic f s h k = inl h

      pub Commits-bind :
          (m : Go S A) (f : A → Go S B) (tx es : List W)
          → Atomic view m tx
          → ((a : A) → Logs view (f a) es)
          → Commits view (m >>= f) tx es
      unfolding ◌>>=◌
      Commits-bind m f tx es h k = record {
        at = λ s. bind_outcome-Commits tx es (view s) (m s).0 f (m s).1 (h.at s) k;
      }

      bind_outcome-Committed :
          (tx es v : List W) (r : Outcome A) (f : A → Go S B) (s : S)
          → view s ≡ v
          → ((a : A) → r ≡ ok a → Commits view (f a) tx es)
          → Committed tx es v (bind_outcome r f s).0 (view (bind_outcome r f s).1)
      bind_outcome-Committed tx es v (ok a) f s h k = rw (← h) ((k a refl).at s)
      bind_outcome-Committed tx es v (err e) f s h k = inl h
      bind_outcome-Committed tx es v panic f s h k = inl h

      -- A first part that writes nothing, and returns only values of which `P` holds.
      pub Commits-value :
          {P : A → Type 0} (m : Go S A) (f : A → Go S B) (tx es : List W)
          → Keeps view m
          → Returns P m
          → ((a : A) → P a → Commits view (f a) tx es)
          → Commits view (m >>= f) tx es
      unfolding ◌>>=◌
      Commits-value m f tx es h p k = record {
        at = λ s.
            bind_outcome-Committed tx es (view s) (m s).0 f (m s).1 (h.at s)
              (λ a e. k a (p.value s a e));
      }
