-- ===== src/Loan.antt =====
-- loan-availment: the service that gives a subscriber a loan.
pub mod Schema
pub mod Errors
pub mod Validation
pub mod Deps
pub mod Checks
pub mod Eligibility
pub mod Repos
pub mod Serializers
pub mod Availments
pub mod Amax
pub mod Requests
pub mod Templates
pub mod Notify
pub mod Enquiry
pub mod Publisher
pub mod Laws
pub mod Frames
pub mod Releases
