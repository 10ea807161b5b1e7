-- ===== src/Fetch.antt =====
-- The transport of a feed, `feeds/feed_fetch.py`: the policy, the check of a target's addresses, the
-- bounded body, and the redirects. Times count microseconds.
pub mod Wire
pub mod Target
pub mod Body
pub mod Discovery
pub mod Examples
pub mod Follow
pub mod Refreshed
