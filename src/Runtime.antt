-- ===== src/Runtime.antt =====
-- What the services use of the Go language and its standard library.
mod Effects
pub mod Keeps
pub mod Returns
pub mod Unfailing
pub mod Logs
pub mod Float64
pub mod Time
pub mod Strconv
pub mod Strings
pub mod Guards
pub mod Runs
pub mod Attempts
pub mod Lookups
pub mod Reports
pub use Effects.*
unfoldable pub use Effects.{◌>>=◌, defer}
