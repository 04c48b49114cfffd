-- ===== src/Worker.antt =====
-- The service promo-collection-worker: it takes the requests of promo-collection, has the data
-- deducted from the wallet, and records the collection.
pub mod Schema
pub mod Deps
pub mod Serializers
pub mod Repos
pub mod Notify
pub mod Full
pub mod Partial
pub mod Failure
pub mod Requests
pub mod Laws
pub mod Frames
