-- ===== src/Reading.antt =====
-- Which articles a reader has read and still sees, and the commands that change it:
-- `feeds/queries.py` and `feeds/commands.py`. Times count microseconds, dates count days.
pub mod Row
pub mod Dates
pub mod Query
pub mod Command
mod Examples
