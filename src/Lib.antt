-- ===== src/Lib.antt =====
-- Orders, stock and payments of the shop (Go services under services/, shared packages under pkg/).
--
-- A checkout reserves stock at the inventory service, places an order that waits for its payment, and
-- asks the payment service to collect. The payment's outcome comes back to the order service as an
-- event, and the order's own outcome commits or releases the reservation. A sweep cancels orders
-- that nobody paid for, and another expires reservations whose time has run out. Each service keeps
-- its rows in PostgreSQL, writes in transactions (pkg/txmanager) and announces what it did in an
-- outbox in the same transaction; a consumer takes each event in once (pkg/inbox).
--
-- The files and the code that they model:
--   Prelude     shared names, Boolean tests, lists and integers over the native numbers
--   Errors      pkg/errorx, and the error types of the services' internal/domain/errors.go
--   Text, Sku   Go strings as code points; NewSKU (internal/domain/sku.go of inventory and order)
--   Money       internal/domain/money.go of order and payment
--   Uuid        parseUUID (internal/domain/id.go of order and payment)
--   Idempotency the table of idempotency keys of order and payment
--               (internal/adapter/out/postgres/idempotency_store.go)
--   Tx          pkg/txmanager/txmanager.go: Do at the outermost level, and what it stores (a commit
--               that gives an error was not applied, or it was and its answer is lost)
--   Table       SELECT, UPDATE and ORDER BY on a list of rows; Laws, Keys and Sorted: lemmas
--   Inventory   services/inventory. Domain: internal/domain (Lifecycle: the state machine of a
--               reservation; Lines: canonicalLines and NewReservation). Store: db/queries and the
--               constraints of db/migrations. Repository: internal/adapter/out/postgres. Service:
--               internal/app/inventory_service.go; its children follow the calls from one movement
--               of stock (Movements) over the transactions (Reserve, Ending, Settle, Sweep, Shelf) to calls
--               (Calls) and sequences of calls (Runs)
--   Order       services/order. Domain: internal/domain (Totals and Placed: NewOrder; Lifecycle: the
--               state machine of an order). Store and Placing: internal/adapter/out/postgres and
--               pkg/inbox. Checkout and Pages: internal/app/order_service.go and cursor.go
--               (Reserved, Repeated, Listed: lemmas). Saga: MarkPaid of internal/app/checkout_saga.go and
--               ExpireStaleOrders of internal/app/saga_timeout.go (Announced, Deliveries, Stale,
--               Runs, Once: lemmas)
--   Payment     services/payment. Domain: internal/domain, and apply of
--               internal/app/payment_service.go (Lifecycle: sequences of provider answers). Store:
--               internal/adapter/out/postgres. Initiate, Settle and Reads: the use cases of
--               internal/app/payment_service.go. Paid and Runs follow its transactions, Refines and
--               Replays InitiatePayment as a whole, Keys what a key keeps, Owned the reads
--   Identity    services/identity. Domain and Account: internal/domain. Store:
--               internal/adapter/out/postgres. Session and Registration: internal/app. Later,
--               Families, Rotation and Chains follow the chains of refresh tokens over the writes,
--               Refreshed, Accepted and Reuse over Refresh; SignIn and Unannounced: Login, Register
--   Outbox      pkg/outbox: Write, publishBatch and the waits of Run (Delivered, Batches, Drained,
--               Backoff: lemmas)
--   Tests       the theorems at concrete inputs
--
-- How code becomes definitions: a function that returns an error gives a Result; a method of an
-- aggregate gives the aggregate that it leaves and whether it moved; a statement goes from rows to
-- rows; a use case goes from rows to its answer and the rows stored, and where it calls another
-- service, what it asked of that. Loops are recursion on the list that they range over, so no fuel is
-- needed. The endless loop of the relay is a list of what its cycles gave. A checked int64 sum is a
-- sum of natural numbers with the check written out; a column that is an int fails its statement
-- beyond the range. A status that is none of the known texts is `unknown`.
--
-- Parameters stand for what the code relies on: PostgreSQL's ORDER BY sku (any order of the same
-- lines), uuid parsing, the rows that SKIP LOCKED steps over, how the server answers to Begin and
-- Commit, clocks, what is minted or drawn at random, digests, the text of times and base64, the
-- password hasher, the issuer of access tokens, the payment provider, the publisher, and the services
-- that a use case calls. Where a use case waits for one of these, what other calls store meanwhile is
-- a parameter too.
--
-- Not modelled: two transactions at once (they come one after another, the row locks of the code
-- make them wait), nested transactions, panics, failures of single statements that no constraint
-- explains, except those of Register, which opens no transaction, messages and metadata of errors,
-- the steps of the saga that call inventory, the catalog service, the gateway, metrics, generated code
-- and wiring.
pub mod Prelude
pub mod Errors
pub mod Text
pub mod Sku
pub mod Money
pub mod Uuid
pub mod Idempotency
pub mod Tx
pub mod Table
pub mod Inventory
pub mod Order
pub mod Payment
pub mod Identity
pub mod Outbox
mod Tests
