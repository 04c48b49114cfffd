-- ===== src/Runtime/Effects.antt =====
-- Go functions with effects: `S` is all that lies outside the function (databases, brokers, the
-- clock), and a call returns a value, returns an error, or panics.
use Prim.Native.String.{◌++◌}
use promo_collection.Prelude.{String, Bool, true, false, ◌⊎◌, inl, inr, Option, none, some}

-- `no_documents` is `mongo.ErrNoDocuments` and `redis_nil` is `redis.Nil`; `wrapped` is
-- `fmt.Errorf("...: %w", err)`, `message` is `errors.New`, `external` any error of a library and
-- `coded` a `*models.CustomError`, known by its code.
pub data Error : Type 0 where
  no_documents redis_nil : Error
  external message : String → Error
  wrapped : String → Error → Error
  coded : String → String → Error

-- `err.Error()`
abbrev pub error_text : Error → String
error_text no_documents = "mongo: no documents in result"
error_text redis_nil = "redis: nil"
error_text (external t) = t
error_text (message t) = t
error_text (wrapped t e) = t ++ ": " ++ error_text e
error_text (coded c t) = t

-- `errors.Is(err, mongo.ErrNoDocuments)` looks through wrapped errors.
abbrev pub is_no_documents : Error → Bool
is_no_documents no_documents = true
is_no_documents redis_nil = false
is_no_documents (external t) = false
is_no_documents (message t) = false
is_no_documents (wrapped t e) = is_no_documents e
is_no_documents (coded c t) = false

-- `errors.Is(err, redis.Nil)`.
abbrev pub is_redis_nil : Error → Bool
is_redis_nil no_documents = false
is_redis_nil redis_nil = true
is_redis_nil (external t) = false
is_redis_nil (message t) = false
is_redis_nil (wrapped t e) = is_redis_nil e
is_redis_nil (coded c t) = false

pub data Outcome {ℓ} (A : Type ℓ) : Type ℓ where
  ok : A → Outcome A
  err : Error → Outcome A
  panic : Outcome A

abbrev pub Go {ℓ κ} : Type ℓ → Type κ → Type (ℓ ⊔ κ)
Go S A = S → Outcome A × S

-- `if err != nil { return fmt.Errorf("...: %w", err) }`, on the outcome.
abbrev pub wrap_error {κ} : {A : Type κ} → String → Outcome A → Outcome A
wrap_error t (ok a) = ok a
wrap_error t (err e) = err (wrapped t e)
wrap_error t panic = panic

-- `if err != nil { return fmt.Errorf("...: %v", err) }`: the cause is not kept.
abbrev pub restate_error {κ} : {A : Type κ} → String → Outcome A → Outcome A
restate_error t (ok a) = ok a
restate_error t (err e) = err (message t)
restate_error t panic = panic

abbrev pub attempted {κ} : {A : Type κ} → Outcome A → Outcome (A ⊎ Error)
attempted (ok a) = ok (inl a)
attempted (err e) = ok (inr e)
attempted panic = panic

module _ {ℓ κ} {S : Type ℓ} {A : Type κ} where
  pub pure : A → Go S A
  pure a s = (ok a, s)

  pub fail : Error → Go S A
  fail e s = (err e, s)

  -- A panic: a nil pointer is read, or an index is out of range.
  pub crash : Go S A
  crash s = (panic, s)

  pub wrapping : String → Go S A → Go S A
  wrapping t m s = let (r, s') = m s in (wrap_error t r, s')

  pub restating : String → Go S A → Go S A
  restating t m s = let (r, s') = m s in (restate_error t r, s')

  -- `v, err := f()`, where the caller looks at `err` itself.
  pub attempt : Go S A → Go S (A ⊎ Error)
  attempt m s = let (r, s') = m s in (attempted r, s')

  -- A read through a pointer, or of an element that may be out of range.
  pub deref : Option A → Go S A
  unfolding pure crash
  deref none = crash
  deref (some a) = pure a

module _ {ℓ κ} {S : Type ℓ} {A : Type κ} where
  -- A value, or the error of the branch that finds none.
  pub or_fail : Error → Option A → Go S A
  unfolding pure fail
  or_fail e none = fail e
  or_fail e (some a) = pure a

module _ {ℓ κ μ} {S : Type ℓ} {A : Type κ} {B : Type μ} where
  abbrev pub bind_outcome : Outcome A → (A → Go S B) → Go S B
  bind_outcome (ok a) f s = f a s
  bind_outcome (err e) f s = (err e, s)
  bind_outcome panic f s = (panic, s)

  infixl 5 ◌>>=◌ ◌>>◌
  -- Opening this opens the primitives too.
  unfoldable pub ◌>>=◌ : Go S A → (A → Go S B) → Go S B
  unfolding pure fail crash wrapping restating attempt deref or_fail
  ◌>>=◌ m f s = let (r, s') = m s in bind_outcome r f s'

  abbrev pub ◌>>◌ : Go S A → Go S B → Go S B
  m >> k = m >>= λ _. k

abbrev pub deferred_result {κ μ} : {A : Type κ} {B : Type μ} → Outcome A → Outcome B → Outcome A
deferred_result r (ok u) = r
deferred_result r (err e) = r
deferred_result r panic = panic

module _ {ℓ κ μ} {S : Type ℓ} {A : Type κ} {B : Type μ} where
  -- `defer`: the clean-up runs after the body, also when that fails or panics, and sees how the
  -- body ended. What the clean-up returns is dropped, but its panic goes on.
  unfoldable pub defer : (Outcome A → Go S B) → Go S A → Go S A
  unfolding ◌>>=◌
  defer cleanup body s =
      let (r, s') = body s in let (q, s'') = cleanup r s' in (deferred_result r q, s'')
