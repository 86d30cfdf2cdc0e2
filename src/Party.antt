-- ===== src/Party.antt =====
-- backend/app/services/party_manager.py, backend/app/api/routes/party.py and models/party.py: parties,
-- their members and invites. The id of a new party and the clock are arguments.
pub mod Rows
pub mod Manager
pub mod Routes
pub mod Owner
pub mod Membership
mod Leave
mod Join
mod Steps
mod Tests
