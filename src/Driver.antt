-- ===== src/Driver.antt =====
-- The libraries that the services call, as interfaces: a MongoDB collection, a Redis client, a
-- Pub/Sub topic and the clock. Their code is not the repository's; each is a record of operations
-- on the outside world `S`, of which the theorems assume what they name.
use promo_collection.Prelude.{String, ℕ, Bool, Option}
use promo_collection.Runtime.{Go}
use promo_collection.Runtime.Time.{Time}

-- `primitive.ObjectID`, which is only compared; `nil_id` is `primitive.NilObjectID`.
abbrev pub ObjectId : Type 0
ObjectId = ℕ

abbrev pub nil_id : ObjectId
nil_id = 0

-- `*mongo.Collection` with documents `T`. A filter is a test on documents, an update a function.
-- `find_one` fails with `no_documents` where no document passes; `delete_one` and `update_one` succeed
-- there. `find_last` is `FindOne` in the descending order of `_id`.
pub record Collection (S T : Type 0) : Type 0 where
  pub find_one : (T → Bool) → Go S T
  pub find_last : (T → Bool) → Go S T
  pub insert_one : T → Go S ObjectId
  pub update_one : (T → Bool) → (T → T) → Go S (Unit {0})
  pub update_many : (T → Bool) → (T → T) → Go S (Unit {0})
  pub delete_one : (T → Bool) → Go S (Unit {0})

-- `*mongo.Client` and `mongo.Session`: `with_transaction` runs its argument as a transaction.
pub record Sessions (S : Type 0) : Type 0 where
  pub start_session : Go S (Unit {0})
  pub with_transaction : Go S (Unit {0}) → Go S (Unit {0})

-- `*redis.Client` with values `B`; `set` takes the time to live in nanoseconds.
pub record Redis (S B : Type 0) : Type 0 where
  pub get : String → Go S B
  pub set : String → B → ℕ → Go S (Unit {0})
  pub del : String → Go S (Unit {0})

-- `encoding/json` for values `T` and bytes `B`.
pub record Codec (T B : Type 0) : Type 0 where
  pub marshal : T → Option B
  pub unmarshal : B → Option T

-- A Pub/Sub topic: `send` is `Publish` and `Get` of its result, the message's id.
pub record Topic (S B : Type 0) : Type 0 where
  pub send : B → Go S String

-- `time.Now`.
abbrev pub Clock : Type 0 → Type 0
Clock S = Go S Time
