-- ===== src/Runtime/Guards.antt =====
-- `v, err := f(); if err != nil { return r(err) }`: an early return of a value that the error gives.
use promo_collection.Prelude.{◌⊎◌, inl, inr}
use promo_collection.Runtime.Effects.{Go, Error, pure, attempt, ◌>>=◌}

module _ {S A R : Type 0} where
  abbrev pub checked : (Error → R) → (A → Go S R) → A ⊎ Error → Go S R
  checked stop f (inl a) = f a
  checked stop f (inr e) = pure (stop e)

  abbrev pub checking : (Error → R) → Go S A → (A → Go S R) → Go S R
  checking stop m f = attempt m >>= checked stop f
