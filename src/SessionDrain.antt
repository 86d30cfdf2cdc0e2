-- ===== src/SessionDrain.antt =====
-- backend/app/services/session_drain.py: a publish drains the sessions of all players, and revokes
-- them at a deadline. Rows are objects, so a query followed by a loop over its rows is a traversal
-- of the table. `publish_drain_enabled`, `publish_drain_max_concurrent` and the clock are arguments.
pub mod Rows
pub mod Start
pub mod Finalize
pub mod Enforce
pub mod Targets
pub mod Accounting
pub mod Logout
mod Tests
