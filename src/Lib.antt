-- ===== src/Lib.antt =====
-- The wedding planner backend, a NestJS service in TypeScript, with its core logic modelled and proved.
--
-- The program is a set of modules under src/modules, each with a domain (types and pure rules), an
-- application layer (one use case for each operation, against ports), an infrastructure (Prisma
-- adapters and in-memory implementations of the ports) and interfaces (controllers, guards, DTOs).
-- A use case reads and writes through its repository, and several requests interleave at each await.
--
-- How the code corresponds to the files:
--   Prelude, Prelude/*        library names, Boolean tests, array methods, integers, the handler monad.
--   Shared/DomainError        src/shared/domain/domain-error.ts
--   Shared/Text, Decimal      the string methods that the program calls, and decimal numerals.
--   Shared/Money              src/shared/domain/monto.ts; its round trips in Money/RoundTrip, Canonical.
--   Users                     src/modules/users: the account and the writes of authentication; the user's
--                             own name and avatar in Users/Profile.
--   Auth/Sessions             src/modules/auth/infrastructure/session.repository.fake.ts, the abstract store;
--                             Sessions/Prisma is the adapter over the table, and refines it.
--   Auth/Refresh              src/modules/auth/application/refresh.use-case.ts, logout.use-case.ts; what
--                             they guarantee among other requests in Refresh/Family and
--                             Refresh/Concurrent, and alone in Refresh/Sequential.
--   Database                  src/modules/database/application/unidad-de-trabajo.ts
--   Events/Domain, Store      src/modules/events/domain, infrastructure/event.repository.fake.ts
--   Events/Access             application/event-access.service.ts, interfaces/event-access.guard.ts
--   Events/UseCases           publish-event, update-event and the creation of an event; invite-member in
--                             UseCases/Invite.
--   Seating/Domain, Store     src/modules/seating/domain, infrastructure/seating.repository.fake.ts
--   Seating/UseCases          src/modules/seating/application: all six operations.
--   Expenses                  src/modules/expenses: rows, use cases and the budget summary.
--   Guests/Guest, Table       src/modules/guests: domain/guest.ts, infrastructure/guest.repository.fake.ts;
--                             its invariant in Table/Invariant and Table/Update.
--   Guests/Invitation, Store  domain/invitation.ts, infrastructure/invitation.repository.fake.ts
--   Guests/Delivery           application/handle-delivery-event.use-case.ts, with Guests/Laws.
--   Guests/UseCases           the other use cases of src/modules/guests/application: the public answer in
--                             Answer, import-guests in Import, the sendings in Send, what holds of any
--                             sequence of requests in Requests, lists and summary in Queries.
--   Guests/Worker             src/modules/guests/interfaces/invitation.processor.ts
--   Auth/Links, Account       the tokens of e-mailed links, and register, login, verify-email,
--                             resend-verification, forgot-password and reset-password.
--   Auth/Access               src/modules/auth/application/autenticar-access-token.ts
--   Notifications             src/modules/notifications: what is stored, listed, read and sent; the rooms and
--                             the limit of interfaces/notifications.gateway.ts in Gateway, the worker
--                             interfaces/notification.processor.ts in Processor.
--   Vendors/Ref               src/modules/vendors/domain: the two origins of a vendor and their text.
--   Vendors/Contracts         the vendors of an event: application and
--                             infrastructure/event-vendor.repository.fake.ts.
--   Vendors/Profile           the profile of a vendor and its portfolio: the repository, the use cases, the
--                             public view and the prices.
--   Vendors/Catalog           the public search and its pages.
--   Schedule                  src/modules/schedule: the items of the day of an event, in order.
--   Storage                   src/modules/storage/domain and application: the upload in two steps.
--   Queue                     src/modules/queue/infrastructure/queue.adapter.fake.ts
--   Shared/Cursor             src/shared/domain/cursor.ts; the order of rows and the pages of a list.
--
-- Conventions. The in-memory implementations of the ports stand for the storage: the repository's parity
-- tests hold the Prisma adapters to the same behaviour. A handler is a function from a state to an
-- answer or an error and a new state, written with do blocks in the order of the code; what was written
-- before an error stays, unless a unit of work undoes it. Ids, tokens and hashes are numbers, since the
-- program only compares them. Instants are milliseconds since the epoch, and `Date.now()` is a clock in
-- the state or an argument. Texts are lists of UTF-16 code units. Random values are arguments. SHA-256,
-- the signing of an access token, `toLowerCase` and, where an id is a number, the test that its text is
-- a UUID are parameters; of a cursor's text that test is modelled. `entorno k`, where a handler has it,
-- is what other requests do to the state before the k-th awaited call: a theorem for any `entorno` holds
-- however requests interleave. A section or a transaction that the code runs under a lock is one step.
-- The loops are over lists, and the printing of a number recurs on its quotient by ten. A client that
-- follows cursors is given a number of pages, which is enough when it is more than the rows. The store
-- of objects and the names of a socket's rooms are parameters too.
--
-- Not modelled: the Prisma adapters other than that of the sessions and the columns of a vendor's
-- reference, and the migrations (queries of a database); controllers and validation schemas; the texts
-- of the mails; the adapter of the object store, the start, logging and configuration (input, output and
-- library calls); the exception filter; the lists of expenses and of events, the validation of a
-- location and the float input of an amount; what `BigInt` reads besides digits, a debt of a socket's
-- bucket after a clock that was set back, and the retries of a job, which the queue makes.
pub mod Auth
pub mod Database
pub mod Events
pub mod Expenses
pub mod Guests
pub mod Notifications
pub mod Prelude
pub mod Queue
pub mod Schedule
pub mod Seating
pub mod Shared
pub mod Storage
pub mod Users
pub mod Vendors
