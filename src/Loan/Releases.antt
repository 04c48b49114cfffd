-- ===== src/Loan/Releases.antt =====
-- Computations that do not panic and show nothing but releases of the entry, any number of them.
use promo_collection.Prelude.{◌≡◌, ◌≢◌, refl, sym, ap, ◌∙◌, ◌⊎◌, inl, inr, List, [], ◌∷◌, ◌++◌, All}
use mathlib.Core.List.{append_assoc, append-nil}
use promo_collection.Runtime.{
  Outcome, ok, err, panic, Go, Error, attempt, attempted, ◌>>=◌, bind_outcome,
}
use promo_collection.Runtime.Runs.{Silent, Marks, Runs, attempted-value}
use promo_collection.Loan.Laws.{Call, released}

abbrev pub OnlyReleases : List Call → Type 0
OnlyReleases es = All (λ c. c ≡ released) es

OnlyReleases-append :
    (xs ys : List Call) → OnlyReleases xs → OnlyReleases ys → OnlyReleases (xs ++ ys)
OnlyReleases-append [] ys h k = k
OnlyReleases-append (x ∷ xs) ys (e, h) k = (e, OnlyReleases-append xs ys h k)

pub record Releases {S A : Type 0} (view : S → List Call) (m : Go S A) : Type 0 where
  pub at :
      (s : S)
      → (es : List Call) × (view (m s).1 ≡ view s ++ es) × OnlyReleases es × ((m s).0 ≢ panic)

module _ {S A : Type 0} {view : S → List Call} where
  pub Releases-Silent : (m : Go S A) → Silent view m → Releases view m
  Releases-Silent m k = record {
    at = λ s. let (v, n) = k.at s in ([], v ∙ sym (append-nil (view s)), tt, n);
  }

  pub Releases-Marks : (m : Go S A) → Marks view m (released ∷ []) → Releases view m
  Releases-Marks m k = record { at = λ s. let (v, n) = k.at s in (released ∷ [], v, (refl, tt), n) }

  pub Runs-Releases :
      (m : Go S A) → Releases view m → Runs view (attempt m) (λ x es. OnlyReleases es)
  unfolding ◌>>=◌
  Runs-Releases m k = record {
    at = λ s.
        let (es, v, h, n) = k.at s in let (x, e) = attempted-value (m s).0 n in (x, es, e, v, h);
  }

  bind_outcome-Releases :
      {B : Type 0} (v : List Call) (r : Outcome A) (f : A → Go S B) (s : S) (es : List Call)
      → view s ≡ v ++ es
      → OnlyReleases es
      → r ≢ panic
      → ((a : A) → Releases view (f a))
      → (gs : List Call) × (view (bind_outcome r f s).1 ≡ v ++ gs)
        × OnlyReleases gs
        × ((bind_outcome r f s).0 ≢ panic)
  bind_outcome-Releases v (ok a) f s es h o n k =
      let (gs, w, p, m) = (k a).at s in
      (es ++ gs, w ∙ ap (λ xs. xs ++ gs) h ∙ append_assoc v es gs, OnlyReleases-append es gs o p, m)
  bind_outcome-Releases v (err e) f s es h o n k = (es, h, o, λ x. cc)
  bind_outcome-Releases v panic f s es h o n k = absurd (n refl)

  pub Releases-bind :
      {B : Type 0} (m : Go S A) (f : A → Go S B)
      → Releases view m
      → ((a : A) → Releases view (f a))
      → Releases view (m >>= f)
  unfolding ◌>>=◌
  Releases-bind m f km kf = record {
    at = λ s.
        let (es, v, h, n) = km.at s in bind_outcome-Releases (view s) (m s).0 f (m s).1 es v h n kf;
  }

attempted-no_panic : {A : Type 0} (r : Outcome A) → r ≢ panic → attempted r ≢ panic
attempted-no_panic r n h = let (x, e) = attempted-value r n in cc

module _ {S A : Type 0} {view : S → List Call} where
  Releases-attempt : (m : Go S A) → Releases view m → Releases view (attempt m)
  unfolding ◌>>=◌
  Releases-attempt m k = record {
    at = λ s. let (es, v, h, n) = k.at s in (es, v, h, attempted-no_panic (m s).0 n);
  }

module _ {S A B : Type 0} {view : S → List Call} where
  pub Releases-handle :
      (m : Go S A) (f : A ⊎ Error → Go S B)
      → Releases view m
      → ((a : A) → Releases view (f (inl a)))
      → ((e : Error) → Releases view (f (inr e)))
      → Releases view (attempt m >>= f)
  Releases-handle m f km ka ke = Releases-bind (attempt m) f (Releases-attempt m km) branch
    where
      branch : (r : A ⊎ Error) → Releases view (f r)
      branch (inl a) = ka a
      branch (inr e) = ke e

pub OnlyReleases-nil : (es : List Call) → OnlyReleases es → OnlyReleases (es ++ [])
OnlyReleases-nil es h = OnlyReleases-append es [] h tt
