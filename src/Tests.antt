-- ===== src/Tests.antt =====
-- A concrete world for the services, runs of the code in it, and the theorems at concrete inputs.
pub mod Whole
pub mod Store
pub mod PromoWorld
pub mod PromoData
mod PromoWitnesses
pub mod WorkerWorld
pub mod WorkerData
mod WorkerWitnesses
mod WorkerFailures
pub mod LoanWorld
mod LoanWitnesses
mod NotifyWitnesses
mod EligibilityWitnesses
