-- ===== src/Lib.antt =====
-- Loans on promo data: the services loan-availment, promo-collection and promo-collection-worker.
--
-- loan-availment takes the request of a subscriber for a loan: it checks the number, the transaction
-- id and the keyword, whether another request is in progress, the brand, and the eligibility (the
-- product, an open loan, the lists, the credit score), has the product provisioned by AMAX, stores
-- the availment and the loan, and deletes the document of the transaction in progress. What is told
-- to the subscriber and to Kafka is done by goroutines.
--
-- promo-collection reads the purchases of promos from Kafka. For each it checks its business rules:
-- whether collection is enabled, whether one is already in progress for the subscriber (a document
-- of CollectionTransactionsInProgress), whether the subscriber is in a skip period (an entry in
-- Redis), and whether there is a loan, which may be of the old system and is then updated first. It
-- computes what to deduct and publishes a request on a Pub/Sub topic. promo-collection-worker takes
-- the request, has the data deducted from the wallet, and records the collection: it changes the
-- loan's documents in one MongoDB transaction, notifies the subscriber, publishes the collection on
-- Kafka, and deletes the in-progress document.
--
-- The files:
--   Prelude      names passed on, Boolean tests, lists and integers over the native numbers
--   Runtime      Go: `Outcome` is a value, an error or a panic, and `Go S A` a computation over the
--                outside world `S`, with `defer` and the use of errors as values (Effects); float64
--                as an interface (Float64); times and durations in nanoseconds (Time); strconv and
--                strings; and three ways to reason: what a computation leaves alone or how it ends
--                (Keeps), what it returns (Returns, Unfailing), and the order of its writes (Logs) or
--                of the calls that show (Runs, Attempts, Lookups, Reports). Early
--                returns are in Guards
--   Driver       MongoDB collections and sessions, Redis, Pub/Sub and encodings, as parameters
--   Promo        the service promo-collection, with paths below promo-collection/:
--     Schema       internal/pkg/store/models, internal/pkg/models
--     Repos        internal/pkg/store/impl, internal/pkg/store/repository, internal/pkg/pubsub
--     Education    publishEducationNotification of
--                  internal/service/promo_collection/business_rules.go
--     SkipPeriod   checkRedisForActivePeriod and createSkippingCacheEntry of the same file, and
--                  utils/skipping_period.go
--     Deduction    internal/service/promo_collection/data_deduction_calculation.go
--     Collection   internal/service/promo_collection/collection_rules.go
--     Rules        CheckBusinessLevelRulesForPromoCollection and what it calls
--     Laws         what is assumed of the surroundings; Frames: what leaves them alone
--   Worker       the service promo-collection-worker, with paths below promo-collection-worker/:
--     Schema       internal/pkg/models, internal/pkg/store/models
--     Serializers  internal/pkg/common/serializers.go
--     Repos        internal/pkg/store/impl, internal/service/kafka/kafka_service.go
--     Notify       the notifications of internal/service/success_handling
--     Full         internal/service/success_handling/full_data_deduction.go
--     Partial      internal/service/success_handling/partial_data_deduction.go
--     Failure      internal/service/error_handling
--     Requests     internal/service/pubsub/pubsub_service.go and the callback of
--                  internal/pkg/pubsub/consumer.go
--     Laws         the log of writes that the theorems observe; Frames: what does not show in it
--   Loan         the service loan-availment, with paths below loan-availment/internal/pkg/:
--     Schema       models, store/models/redisLoan.go; Errors: consts/error_collection.go,
--                  utils/error.go
--     Validation   utils/validation.go, consts/channels.go, consts/regex.go, and
--                  requestValidation of services/loan_availment_service.go
--     Checks       services/validation_service.go
--     Eligibility  services/eligibility_check_service.go; MayHave: a description of
--                  CheckEligibility on the documents that are stored; Enquiry: EligibilityCheck
--     Serializers  common/serializers.go, common/common.go
--     Repos        the operations of store that a request calls
--     Availments   InsertFailedAvailment and InsertSuccessfulAvailment of store/availments.go
--     Amax         downstreams/amax_service.go
--     Requests     services/loan_availment_service.go
--     Notify       notification/notification_service.go; Templates: store/message.go
--     Publisher    kafka/producer/kafka_publisher_service.go and the goroutines that call it
--     Deps         the surroundings: a `go` statement hands a task to `spawn`; AMAX takes a request
--                  and answers with a body, a failure or no answer in time
--     Laws         what shows of one number: lookups, the entry, top-ups, messages; Frames and Releases:
--                  what does not show, and the release
--   Tests        worlds of lists in which the code runs, and the theorems at concrete inputs
-- The modules below these hold the theorems. Names are those of the source in snake case; a
-- definition that is a part of a function stands before it.
--
-- Bounds. The only fuel is that of the decimal digits of an integer (Runtime.Strconv): twenty, and
-- an int64 has at most nineteen. Times do not lie before the zero time, and durations are shorter
-- than the longest `time.Duration`, 292 years; integers are Go's within their range, and where the
-- source adds to one it wraps around. float64 is abstract: a theorem says what it assumes of
-- it, for the amounts exact arithmetic on whole numbers up to 2^53.
--
-- Not modelled: logging, configuration, connections and start-up; the HTTP clients of the worker, and
-- in loan-availment HTTP, XML, the digest of the login and the aggregation that finds the servicing
-- partner, which are parameters; the Kafka consumer of promo-collection; the Kafka retry of the
-- worker; of loan-availment the retry of Kafka, the reports, the status, the caches and the lists
-- read from files; the service notification-service.
-- Two requests that run at the same time are not modelled either: each theorem is about one run.

pub mod Prelude
pub mod Runtime
pub mod Driver
pub mod Promo
pub mod Worker
pub mod Loan
pub mod Tests
