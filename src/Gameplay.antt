-- ===== src/Gameplay.antt =====
-- backend/app/api/routes/gameplay.py and backend/app/services/gameplay_authority.py: rewards and
-- levels (Rewards), the action handler with its audit (Resolve, Replay), and the commands for the
-- world service (Commands).
pub mod Rewards
pub mod Resolve
mod Replay
pub mod Commands
pub mod Domain
mod Valid
mod CommandTests
mod Tests
