-- ===== src/Refresh.antt =====
-- Refreshing one feed (feeds/services.py, from `RefreshResult` to `iter_refresh_active_feeds`, and
-- the models `Feed` and `Article` of feeds/models.py).
pub mod Feed
pub mod Outcome
pub mod Fence
pub mod Entry
pub mod Plan
pub mod Apply
pub mod Run
pub mod Cycle
mod Examples
