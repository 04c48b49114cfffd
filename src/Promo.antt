-- ===== src/Promo.antt =====
-- The service promo-collection: it reads promo purchases from Kafka, decides whether the
-- subscriber's loan can be collected from the promo's data, and sends the worker a request.
pub mod Schema
pub mod Deps
pub mod Repos
pub mod Education
pub mod SkipPeriod
pub mod Deduction
pub mod Collection
pub mod Rules
pub mod Laws
pub mod Frames
