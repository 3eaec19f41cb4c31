-- ===== src/Lib.antt =====
-- The core of the dine-in ordering service under backend/, modelled definition by definition.
--
-- A guest scans the code on a table and opens a session, or joins the one that is live there; one guest
-- is the host. The guests fill a shared cart, the host orders from the kitchen, whose staff move each
-- order along. The host asks for the bill, which freezes cart, orders and session until the staff confirm
-- the payment, withdraw it, or a provider's webhook reports on it; a settled session is closed, its table
-- freed and the guests' credentials revoked. Staff may force a close, and workers abandon what is left
-- behind. PostgreSQL holds the rows, Redis the heartbeats of the guests and a cache of tenant decisions.
--
-- The parts, each with its state and the code it models:
--   Domain     backend/internal/domain: statuses, transition tables with their validators, errors.
--   Authz      backend/internal/authz: `authorize` is Authorizer.Authorize, with the role policy
--              `role_allowed` and the scope tests of policy.go and scope.go.
--   Store      the rows of backend/internal/db/sqlc/models.go as records of one `World`, with Redis'
--              replies, the clock and the trace of effects; Store/Monad is a service call with its error,
--              and Repos.WithTx, which rolls back; Store/Runs is what a call went through. Store/Sessions, Payments, Keys, Promos, LoyaltyRows,
--              MenuRows and Orders are the queries of backend/internal/repository, by the SQL text of
--              backend/internal/db/sqlc.
--   Presence   backend/internal/redis/presence.go: merging and filtering the two hashes of heartbeats;
--              Merge and Recent are proofs.
--   Phone      normalizePhone, normalizeOptionalPhone and promoNormalizePhone.
--   Tenant     backend/internal/services/tenant_status.go: the gate for new guests, with its cache.
--   Session    backend/internal/services/session.go: Entry (CreateSession, JoinSession, Reactivate), Host
--              (AuthorizeHostAction, TransferHost, ensureHostBaseline), Close (CloseSession,
--              closeSessionRecord) and the repository's AbandonStaleSession; Closing, Absence and
--              Authority are proofs about them.
--   Guest      backend/internal/auth/guest.go and handlers/guest_auth.go: what a bearer token is accepted
--              for; Binding and Revocation are proofs.
--   Promo      ValidatePromo and computeDiscount of backend/internal/services/promo.go.
--   Payment    backend/internal/services/payment.go: Initiate (initiatePayment), Settlement
--              (SettlePaymentByStaff, CancelPaymentByStaff, the release of the freeze, the closing of a
--              settled session, and ForceCloseByStaff of services/session_close.go), Webhook
--              (ProcessWebhook); the other children are proofs.
--   Loyalty    accrue, Redeem and Adjust of backend/internal/services/loyalty.go over the queries of
--              Store/LoyaltyRows; Ledger and Movements are proofs. The payment service calls it through
--              an effect, since no error of it reaches a payment.
--   Cart       backend/internal/services/cart.go: Items (GetCart, AddItem, RemoveItem) and Modifiers
--              (snapshotModifiers); Choices is a proof about the latter.
--   Order      backend/internal/services/order.go: Requests (the types and hashOrderRequest), Lines (prices
--              and modifiers), Place (PlaceOrder), Progress (UpdateOrderStatus, ListActiveForBranch);
--              Freezing, Admission, Retrying, Recording, Keeping, Committing and Idempotence are proofs.
--   Idempotency  proofs about the key rows of backend/internal/repository/idempotency.go.
--   Billing    Bill is ComputeBillForSession of backend/internal/handlers/billing.go; Sums are its lemmas.
--   Worker     backend/internal/worker/worker.go with backend/internal/repository/worker.go: Sweeps (the
--              reactivation pipeline, the cleaner of stale sessions, the expiry warner), Tables
--              (reconcileSessionTables), Reaper (ReapIdempotencyKeys); Pipeline, Passes,
--              Abandoning and Reaping are proofs.
--   Safety     the services together: Rules says what a call keeps and how that composes; Queries,
--              PaymentRows and Orders show it of each query, Transactions, Sessions, Payments, Charges,
--              Placing, Ordering and Workers of each service call; Steps of any sequence of calls, worker
--              passes, clock ticks, heartbeats and menu edits; Bills draws on it for orders and bills.
--   Tests      the theorems and some runs at concrete inputs.
-- The services call each other as in the source: Payment and Order ask Session for the host authority,
-- Payment closes sessions through it, Session asks Tenant before a guest enters, Guest reads what Session's
-- closing wrote, Order clears what Cart filled, Billing reads what Order wrote, Worker abandons through
-- Session.
--
-- Conventions: a name is the source's in snake case. Ids and uuids are naturals, times are seconds, money
-- and percentages are hundredths: on such values float64 sums and differences, and products with a count,
-- come out to the cent once rounded by round2. A product with a percentage or a rate does not, where it lies
-- next to half a cent, and is a parameter, rounded. Where a modifier's price may be negative, sums are
-- integers. A nil error is `ok`. A row list keeps the order in which its query returns rows. Every
-- recursion is structural. Counters, money and points are naturals of no fixed width: the int64 to which
-- computeEarnPoints cuts its quotient, and the columns' widths, are taken as wide enough. The loop of the
-- reaper runs on a count of batches, the number that the deadline of its context leaves time for, and the
-- theorem about it says how many are enough.
--
-- Not modelled: failures of PostgreSQL and Redis other than those that the code tells apart (no rows, a
-- unique index, an unreadable presence hash); concurrency inside one call, a call being one step; metrics,
-- logs and the audit trail except for failed webhooks; HTTP. Parameters: the token codec (base64, HMAC,
-- JSON), the hashes of a payment and of an order request, fmt.Sprintf, the rounded float64 products of a
-- percentage and of a rate, fresh random strings, the webhook's
-- JSON and uuid decoders, the calendar day and time of day in a time zone, PostgreSQL's LOWER, and the
-- feature gate of loyalty. The administration of menus, tables, staff and the platform, the websocket hub,
-- the tickers and locks of the workers, the escalation of long payments and the reconciliation of billing
-- are not modelled: the services here call them, if at all, through the trace of effects.
pub mod Base
pub mod Domain
pub mod Authz
pub mod Store
pub mod Presence
pub mod Phone
pub mod Tenant
pub mod Session
pub mod Promo
pub mod Payment
pub mod Cart
pub mod Idempotency
pub mod Order
pub mod Billing
pub mod Loyalty
pub mod Guest
pub mod Worker
pub mod Safety
mod Tests
