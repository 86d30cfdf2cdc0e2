-- ===== src/Lib.antt =====
-- The backend of Karaxas (backend/app): the part that keeps accounts, sessions, parties and
-- characters of an online game, publishes new content to the players, and hands events to the
-- world service. It is a FastAPI program over a database. This library models the services and
-- handlers that decide who may go on playing, and what a request changes.
--
-- Parts and files. A part's file stands beside a folder with its proofs; Tests.antt in the folder
-- has runs at concrete inputs.
--
-- - RateLimit: backend/app/services/rate_limit.py. The failure windows and lockouts of the login
--   routes, as a dictionary from keys to entries (check, record_failure, reset, stats, request_ip,
--   ensure_not_rate_limited).
-- - SessionDrain: backend/app/services/session_drain.py. A publish marks the sessions of players,
--   gives them a time to leave and revokes what is left: Start (start_publish_drain), Finalize
--   (finalize_publish_drain, finalize_due_publish_drains), Enforce (enforce_session_drain, which
--   each request runs, and the schedule of run_publish_drain_countdown).
-- - ReleasePolicy: backend/app/services/release_policy.py. The versions that a client must have:
--   Versions (the rows and ensure_release_policy), Evaluate (evaluate_version), Activate
--   (activate_release, activate_content_release).
-- - AuthContext: get_auth_context of backend/app/api/deps.py, with decode_access_token of
--   backend/app/core/security.py. The check of every request: it looks up the session, then runs
--   SessionDrain.Enforce, then ReleasePolicy.Evaluate, and revokes a session whose client is too
--   old. Guards has the checks of routes for admins and operators.
-- - Auth: backend/app/api/routes/auth.py, with verify_totp_code of backend/app/core/security.py.
--   Login, Register, Refresh and Account are the handlers; a handler asks RateLimit first, then
--   ReleasePolicy for the version of the client, opens or rotates a session that AuthContext will
--   admit, and writes to Security.
-- - Security: backend/app/services/security_events.py and admin_audit.py. The logs of security
--   events and of what admins do.
-- - Levels: backend/app/api/routes/levels.py. Layers has the cells of a level and the walls and
--   passages they make, Payload the objects and transitions, Save the handlers (save_level,
--   save_level_order, get_level, list_levels). The JSON columns of a level are lists of entries
--   here.
-- - Realtime: backend/app/services/realtime.py. The websocket connections by channel, user and
--   zone; each block under the lock is one step, and Delivery sends the messages between them. The
--   fuel of a broadcast is the number of connections: each failing send drops one.
-- - Instances: backend/app/services/instance_manager.py and backend/app/api/routes/instances.py
--   (Routes). The instances of levels in which players meet, their expiry, and the assignment of a
--   session to one.
-- - Characters: backend/app/api/routes/characters.py. Which character of a user is selected, where
--   it stands, where it comes back to, and the points of a new one; World has
--   bootstrap_character_world, which takes a level of Levels and assigns the session by Instances.
-- - NotifyWorker: backend/app/services/outbox_notify_worker.py. The worker that wakes a handler
--   for new messages of the outbox of EventPipeline, over connections that may break at any point.
-- - Party: backend/app/services/party_manager.py and backend/app/api/routes/party.py. Parties,
--   their members and invitations (Manager) and the handlers over them (Routes).
-- - Gameplay: backend/app/services/gameplay_authority.py and backend/app/api/routes/gameplay.py.
--   What an action grants (Rewards), the handler resolve_action with its audit of nonces
--   (Resolve), and the commands for the world service (Commands, Domain).
-- - WsTicket: backend/app/services/ws_ticket.py. Tickets that open one websocket connection
--   (issue_ws_ticket, consume_ws_ticket, purge_expired_ws_tickets).
-- - EventPipeline: backend/app/services/event_pipeline.py. The event log, the keys that make a
--   command run once, the outbox from which workers claim messages, and the cursors of the
--   processors.
-- - Models: rows that several parts share (backend/app/models). Base: tests, lists as tables,
--   dictionaries, and the string methods of Python.
--
-- Conventions. A table is the list of its rows in the order of insertion, and a query is a scan of
-- it. A handler is a function from the tables to an answer and the tables behind it; an exception
-- is a value of the answer, and the tables are then what the last commit left. A row that the code
-- holds and writes is written in its table. The clock, the settings, generated ids, str.lower, the
-- JWT decoder and packaging.version are arguments. A time is a number of microseconds, all times
-- are UTC, and integers are unbounded as in Python; a number that the request schemas keep from
-- being negative is a natural number. Two loops run on fuel. That of _apply_progression takes the
-- experience, which each turn lowers by 100, and the theorem on it says that the loop has ended.
-- The broadcasts of Realtime, where a failing send disconnects a socket and may send again, take
-- the number of connections, since each failing send drops one. The digits of a number
-- (Base/Decimal) take the number itself as fuel.
--
-- Not modelled: the database itself (transactions of concurrent requests, locks), JSON bodies of
-- answers, logging and metrics but for the counters named above, floating point (the movement
-- check, the damage of a skill and the numbers of a level's objects are parameters), the options
-- of a character's looks and the rest of create_character, and these parts: chat, content and its
-- validation, the promotion of worlds, the bridges to the world service, the routes for operators
-- and releases, and everything outside backend/app.
pub mod Auth
pub mod AuthContext
pub mod Base
pub mod Characters
pub mod EventPipeline
pub mod Gameplay
pub mod Instances
pub mod Levels
pub mod Models
pub mod NotifyWorker
pub mod Party
pub mod RateLimit
pub mod Realtime
pub mod ReleasePolicy
pub mod Security
pub mod SessionDrain
pub mod WsTicket
