-- ===== src/Lib.antt =====
-- The reservation core of the practice-room booking system: what the services in core/services
-- read and write when a student reserves, changes, cancels or uses a room.
--
-- The program keeps its state in one database. Each operation is a body that validates a request
-- and writes rows, and core/services/protocol.py runs it in a transaction under one lock, after
-- core/services/reconcile.py has brought all due state up to date. Messages and audit events are
-- rows that are written with the change.
--
-- Settings (roomreserve/settings/base.py), Errors (core/services/errors.py) and Models (core/models)
-- hold the data; Models/Db is the database as a record of tables. Action is the monad of a body: it
-- reads and writes the database and may raise. Audit, Outbox, Policy, Slots, Calendar, Eligibility
-- and Quota are the services of the same names, with core/services/room_access.py and
-- core/services/instruments.py in Eligibility and core/services/clock.py in Slots. Bookings is what
-- the operations share, core/services/refs.py included; Bookings/Constraints states the constraints
-- of the booking table in core/models/booking.py. Reserve, Change, Approval and Staff are the
-- operations of core/services/booking.py, Cancel, Checkin and Walkin those of their files; Cancel
-- also has the end of a weekly series. Due, Strikes and Reconcile are core/services/reconcile.py,
-- and Protocol is core/services/protocol.py.
--
-- The staff's side: Sanctions is core/services/sanctions.py; Closures, Overrides, Sessions and
-- Retirement are core/services/maintenance.py (closures, opening hours of one day, sessions ended or
-- cancelled in bulk, rooms taken out of use), with Bulk for what those share; Incidents is
-- core/services/incidents.py. Desk has the bodies that the pages of core/views/staff.py hand to the
-- protocol. Availability has the cells of core/services/availability.py that the grid and the page of
-- a room show. The background work: Delivery is the worker of core/services/notifications.py, with the
-- state machine of an outbox row in Outbox, and Scheduler is core/services/scheduler.py.
--
-- In each component the file Table states what becomes of the booking table. Protocol/Operations
-- lists the operations a request may name, and Lifetime the steps of the whole system: a request, a
-- tick of the scheduler, a round of the worker, the passing of time. Action/Orderly says which bodies
-- change only what the constraints allow. Tests runs the operations on concrete databases.
--
-- An instant is a count of microseconds since 0001-01-01 00:00 UTC, and Bangkok is UTC+7. A table is
-- a list of rows; a query is a filter, and a save writes the rows under its key. The clock that
-- `timezone.now()` reads is a field of the database, read once for a transaction. A text that is put
-- together from a name and a key, such as a dedupe key, is kept as its parts, and a date inside a
-- payload as its instant. A body that raises leaves its writes, and the savepoint of the protocol
-- takes them back. Loops go over lists, so they end; the only fuel is the number of retries, which
-- is the source's own.
--
-- Parameters stand for what is not code of the repository or is outside the parts above: the SHA-256
-- digest of a payload, which attempts the server ended with a transient failure and what lock and
-- clock each attempt met, the lease tokens, which outbox rows another worker has locked, and what
-- came of checking an invitation or of sending a mail.
--
-- Not modelled: correlation identifiers, check-in tokens, gaps in key sequences after a rollback, the
-- web layer apart from the bodies in Desk, creating a weekly series, the texts of messages, imports,
-- the room audience and the policy pages, the whole grid and the status board, suggestions, rate
-- limits, identity and the roster, the details of a heartbeat, and the checks of an invitation.
pub mod Prelude
pub mod Settings
pub mod Slots
pub mod Errors
pub mod Models
pub mod Action
pub mod Audit
pub mod Outbox
pub mod Availability
pub mod Policy
pub mod Calendar
pub mod Eligibility
pub mod Quota
pub mod Bookings
pub mod Reserve
pub mod Change
pub mod Approval
pub mod Cancel
pub mod Checkin
pub mod Walkin
pub mod Staff
pub mod Due
pub mod Strikes
pub mod Bulk
pub mod Sanctions
pub mod Overrides
pub mod Closures
pub mod Sessions
pub mod Retirement
pub mod Incidents
pub mod Delivery
pub mod Scheduler
pub mod Desk
pub mod Lifetime
pub mod Reconcile
pub mod Protocol
pub mod Tests
