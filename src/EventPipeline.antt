-- ===== src/EventPipeline.antt =====
-- backend/app/services/event_pipeline.py and models/event_pipeline.py: the world's event log, its
-- outbox, the idempotency keys of commands and the cursors of processors. Ids grow with each row, so
-- a table is in the order of its ids. A JSON column is a text. `json.dumps` with SHA-256 is a
-- parameter, and the clock is an argument.
pub mod Idempotency
pub mod Outbox
pub mod Claims
mod Disjoint
pub mod Cursor
mod Tests
