-- ===== src/Store/Payments.antt =====
-- The queries on payments, bill snapshots and webhook events: backend/internal/repository/payment.go
-- with the SQL text of backend/internal/db/sqlc/payments.sql.go. New payments stand first, which is
-- ORDER BY initiated_at DESC.
use Prim.Native.String.{String}
use text.Mathlib.Text.{◌==◌ as str_eq}
use qr_dining.Base.{
  ℕ, ◌+◌, ⊤, Bool, true, false, ◌&&◌, not, Option, none, some, List, [], ◌∷◌, ◌==◌, map,
  if◌then◌else◌,
}
use qr_dining.Base.Rows.{find?, update_where, select, exists}
use qr_dining.Domain.{
  PaymentStatus, PaymentStatus-comparable, requires_staff_confirmation, completed, failed, refunded,
  partially_refunded, payment_not_found, invalid_payment_transition, no_rows, unique_violation,
  one_non_terminal_violation, OrderStatus, OrderStatus-comparable,
}
use qr_dining.Store.Model.{World, Payment, BillSnapshot, Order, WebhookEvent}
use qr_dining.Store.Monad.{Op, ok, err, or_fail, modify}
use qr_dining.Store.Sessions.{next_in_sequence}

-- isTerminalPaymentStatus of services/payment.go. The index
-- idx_payments_one_non_terminal_per_session lists the other statuses.
abbrev pub is_terminal_payment_status : PaymentStatus → Bool
is_terminal_payment_status completed = true
is_terminal_payment_status failed = true
is_terminal_payment_status PaymentStatus.cancelled = true
is_terminal_payment_status refunded = true
is_terminal_payment_status partially_refunded = true
is_terminal_payment_status _ = false

abbrev pub is_status : PaymentStatus → PaymentStatus → Bool
is_status a b = PaymentStatus-comparable.eq a b

unfoldable pub get_payment_by_id : ℕ → Op Payment
get_payment_by_id id w = or_fail (find? (λ p. p.id == id) w.payments) payment_not_found w

unfoldable pub get_bill_snapshot_by_id : ℕ → Op BillSnapshot
get_bill_snapshot_by_id id w = or_fail (find? (λ b. b.id == id) w.bill_snapshots) no_rows w

unfoldable pub list_payments_for_session : ℕ → World → List Payment
list_payments_for_session session_id w = select (λ p. p.session_id == session_id) w.payments

-- nonTerminalPaymentForSession: the first of the session's payments that is open.
abbrev pub is_open_for : ℕ → Payment → Bool
is_open_for session_id p = p.session_id == session_id && not (is_terminal_payment_status p.status)

-- The row as UPDATE … RETURNING gives it.
abbrev pub returned : ℕ → Bool → Option Payment → Op Payment
returned id done row w =
    if done then or_fail row invalid_payment_transition w else (err invalid_payment_transition, w)

abbrev update_payment : ℕ → (Payment → Bool) → (Payment → Payment) → Op Payment
update_payment id from set w =
    let p : Payment → Bool = λ p. p.id == id && from p in
    let rows = update_where p set w.payments in
    returned id (exists p w.payments) (find? (λ r. r.id == id) rows) (record w { payments = rows })

-- `completed_at = CASE WHEN $3 = 'completed' THEN NOW() ELSE completed_at END`
abbrev pub move_payment : PaymentStatus → ℕ → Payment → Payment
move_payment next now p = record p {
  status = next;
  completed_at = if is_status next completed then some now else p.completed_at;
}

unfoldable pub update_payment_status_expected : ℕ → PaymentStatus → PaymentStatus → Op Payment
update_payment_status_expected id current next w =
    update_payment id (λ p. is_status p.status current) (move_payment next w.now) w

abbrev pub settle : ℕ → ℕ → Payment → Payment
settle staff_id now p = record p {
  status = completed;
  settled_by_staff_id = some staff_id;
  settled_at = some now;
  completed_at = some now;
}

unfoldable pub settle_payment_row : ℕ → ℕ → ℕ → Op Payment
settle_payment_row id staff_id branch_id w =
    update_payment id
      (λ p. p.branch_id == branch_id && is_status p.status requires_staff_confirmation)
      (settle staff_id w.now) w

unfoldable pub next_payment_number : ℕ → ℕ → Op ℕ
next_payment_number branch date w =
    let (seq, rows) = next_in_sequence 1 branch date w.payment_sequences in
    (ok seq, record w { payment_sequences = rows })

-- The row is given without its id.
unfoldable pub create_bill_snapshot : BillSnapshot → Op BillSnapshot
create_bill_snapshot new w =
    let row : BillSnapshot = record new { id = w.next_id } in
    (ok row, record w { bill_snapshots = row ∷ w.bill_snapshots; next_id = w.next_id + 1 })

abbrev same_ref : Option String → Option String → Bool
same_ref (some a) (some b) = str_eq a b
same_ref _ _ = false

abbrev pub has_provider_ref : Payment → World → Bool
has_provider_ref new w =
    exists
      (λ (p : Payment).
        same_ref p.provider new.provider
        && same_ref p.provider_payment_ref new.provider_payment_ref)
      w.payments

-- The row is given without its id. The two unique indexes of the table refuse a second open payment of
-- a session and a second use of a provider's reference.
unfoldable pub create_payment : Payment → Op Payment
create_payment new w =
    let row : Payment = record new { id = w.next_id } in
    if not (is_terminal_payment_status new.status) && exists (is_open_for new.session_id) w.payments
    then (err one_non_terminal_violation, w)
    else if has_provider_ref new w
    then (err unique_violation, w)
    else (ok row, record w { payments = row ∷ w.payments; next_id = w.next_id + 1 })

unfoldable pub get_payment_by_provider_ref : String → String → Op Payment
get_payment_by_provider_ref provider ref w =
    or_fail
      (find?
        (λ (p : Payment).
          same_ref p.provider (some provider) && same_ref p.provider_payment_ref (some ref))
        w.payments)
      payment_not_found w

abbrev pub sum_amounts : List Payment → ℕ
sum_amounts [] = 0
sum_amounts (p ∷ ps) = p.amount + sum_amounts ps

abbrev is_snapshot : Option ℕ → ℕ → Bool
is_snapshot none id = false
is_snapshot (some s) id = s == id

unfoldable pub sum_completed_payments_for_bill_snapshot : ℕ → ℕ → World → ℕ
sum_completed_payments_for_bill_snapshot session_id snapshot_id w = sum_amounts (
    select
      (λ p.
        p.session_id == session_id
        && is_snapshot p.bill_snapshot_id snapshot_id
        && is_status p.status completed)
      w.payments)

-- activeOrderIDSet of services/payment.go: the orders of the session that are not cancelled.
unfoldable pub active_order_ids : ℕ → World → List ℕ
active_order_ids session_id w =
    map {A = Order} (λ o. o.id)
      (select
        (λ (o : Order).
          o.session_id == session_id
          && not (OrderStatus-comparable.eq o.status OrderStatus.cancelled))
        w.orders)

-- ON CONFLICT (external_event_id) DO NOTHING: `none` for an event that is there already.
unfoldable pub insert_webhook_event : String → String → String → Op (Option ℕ)
insert_webhook_event external_event_id provider event_type w =
    let row : WebhookEvent = record {
      id = w.next_id;
      external_event_id = external_event_id;
      provider = provider;
      event_type = event_type;
      processed = false;
      payment_id = none;
      failed = false;
    } in
    if exists (λ (e : WebhookEvent). str_eq e.external_event_id external_event_id) w.webhook_events
    then (ok none, w)
    else (
      ok (some row.id),
      record w { webhook_events = row ∷ w.webhook_events; next_id = w.next_id + 1 },
    )

-- `0` is no payment.
unfoldable pub mark_webhook_processed : ℕ → ℕ → Bool → Op ⊤
mark_webhook_processed id payment_id with_error = modify λ w. record w {
  webhook_events =
      update_where (λ e. e.id == id)
        (λ e. record e {
          processed = true;
          payment_id = if payment_id == 0 then none else some payment_id;
          failed = with_error;
        })
        w.webhook_events;
}
