-- ===== src/Lib.antt =====
-- rulefolio-server is the server of a laboratory for games: people are invited to workspaces, play
-- test works, and are told by mail and by to-dos. This library models its identity service, its
-- workspaces and works, its mail outbox with the dispatcher, its to-dos, and the commands by which
-- an operator brings a restored installation back into service. Paths below are in src/app.
--
-- - Prelude: Boolean tests on numbers and optional values, and the SQL statements of the
--   services on a table that is a list of its rows (`scalar`, `update`, `rowcount`, `delete`,
--   `select`, `pick`). Prelude/Counts counts rows across these statements.
-- - Settings (core/config.py): the fields that the modelled services read, with their bounds.
-- - Crypto: the third-party cryptography and the e-mail validator, as a parameter.
-- - Database (core/database.py, audit/models.py): all tables, and an SQLAlchemy session.
--   Database/Leaves and Database/Reads have the rules by which proofs follow a do block: what a
--   request leaves committed, and which of its parts only read.
-- - Identity (identity/models.py, identity/service.py). Models: the tables. Passwords, Attempts
--   (the limiter), Sessions, Credentials (one-time credentials), Login (`login`), Exchange
--   (`activate`, `recover_password`), Accounts (provisioning and invitations), RecoveryRequests
--   (the queue of password recovery requests and its worker). CredentialLaws, AttemptLaws,
--   SessionLaws, LoginLaws, ExchangeLaws and RequestLaws hold the proofs.
-- - Notifications (notifications/models.py, service.py, dispatcher.py). Outbox: the statements
--   on mail. Todos and Requests: the to-dos and the requests of their recipients. Dispatcher: the
--   claim protocol. Dispatch: `dispatch_one`. Steps takes each statement that writes the outbox as
--   a step of the database, so that Consistency, Keys and Finality speak of every interleaving of
--   the processes. Claims, Stopping, Closing, TodoLaws, Envelope, Retry and Scope hold other
--   proofs. Starting says when a mail may be sent, Answering what an answer of the mail server
--   leaves, and Delivery joins them.
-- - Recovery (recovery/models.py, gate.py, service.py). Gate: what the stage allows. Request:
--   the arguments of the commands. Objects: the comparison of manifest, file rows and bucket.
--   Service: `recover`. Reopen: `confirm_restricted_access`, `open_dispatcher`. Laws and
--   ReopenLaws: proofs.
-- - Workspaces (workspaces/models.py, workspaces/service.py). Models: the tables. Access: the
--   guards. Members: members of workspaces and accesses of works, which the service of works uses.
--   Membership: `create_workspace`, `remove_member`. Invitations: their status, expiry and
--   limiter. Inviting: `create_invitation`, `revoke_invitation`. Accepting: the exchange of an
--   invitation in a session, from the inbox, or with the activation of an account. Exit:
--   `request_workspace_exit`, `process_next_due_workspace_exit`, `diagnose_workspace`. Scope says
--   which tables these parts leave alone; CloseLaws, ExitLaws, ExitProgress, InboxLaws,
--   InboxReplay and InvitingLaws hold the proofs.
-- - Works (works/models.py, works/service.py). Guards: `_prepare_manager_write` and the guards
--   of other services. Service: `create_work`, `update_work`, `set_work_access`,
--   `revoke_work_access`. Maintained, Writes, Laws, Removal and Steps follow an invariant through
--   every order of these requests and of `remove_member`. Roles and Refinement take the table of
--   accesses as a finite map. Conflicts is about the revisions.
-- - Files: the rows that the recovery reads.
-- - Examples: runs at concrete inputs.
--
-- How the program is modelled. A service function is a function on a session (`Exec`): it reads
-- and writes the working copy of the database, `commit` makes that durable or is refused, as the
-- parameter `accepts` says, and `rollback` restores the durable copy. An exception is a result
-- `err`, and `or_retryable` is the `except` clauses of a request: a database error becomes its
-- retryable error. A UUID, a digest and a nonce are natural numbers, a ciphertext is a text, and a
-- time is a natural number of microseconds; no arithmetic of the program is bounded by a word.
-- Readings of the clock and drawn values (`uuid4`, `secrets`, `os.urandom`) are arguments. What
-- other transactions do is an argument too: the rows that they have locked, the rows that they
-- insert first, and what they commit between two transactions of one function. Every function is
-- structurally recursive: no fuel is used. The mail server, the object storage, the eligibility
-- tests of the services for playtests and issues, and the SQL of `_database_checks` are
-- parameters. Row security is a parameter: `visible` and `visible_work` say which rows a request
-- sees. Formatted texts (`str(id)`, the scope of an audit) are functions `str`, `label` and
-- `scope`. A statement on to-dos takes the reading of the clock of its caller. The numbers of
-- players and minutes are natural, so that negative ones, which are refused, have no value here.
--
-- Not modelled: the scope setters of row security and the policies in the migrations, failures of
-- reads, the padding of response times, the advisory lock and the manifest parser of the recovery,
-- the lists that a page of a client shows (`list_todos`, `list_works`, `list_members`, ...), the
-- expiry of invitations while to-dos are listed, the rule materials of works, the other services
-- (playtests, issues, evidence, exports, files), and the HTTP and command line layers.

pub mod Prelude
pub mod Settings
pub mod Crypto
pub mod Database
pub mod Identity
pub mod Notifications
pub mod Recovery
pub mod Workspaces
pub mod Works
pub mod Files
pub mod Examples
