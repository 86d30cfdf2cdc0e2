-- ===== src/ReleasePolicy.antt =====
-- backend/app/services/release_policy.py: the versions and the rows (Versions), the decision on a
-- client (Evaluate), activations (Activate), and what they guarantee (Monotone).
pub mod Versions
pub mod Evaluate
pub mod Activate
pub mod Monotone
pub mod Toy
mod Tests
