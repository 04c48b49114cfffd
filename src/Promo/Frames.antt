-- ===== src/Promo/Frames.antt =====
-- The steps of promo-collection that leave an observation alone, if the driver's calls behind them
-- do: all but the writes to the in-progress entries and the requests to the worker.
mod Repos
mod Steps
pub use Repos.*
pub use Steps.*
