-- ===== src/Tests/SafetyRuns.antt =====
-- The tenant gate, promos and what the services keep, at concrete inputs.
use qr_dining.Base.{◌↔◌, ◌≡◌, refl, true, false, none, some, [], ◌∷◌, arith}
use qr_dining.Domain.{branch_suspended, active, closed, not_session_host}
use qr_dining.Store.{
  World, TenantState, Session, Promo, PromoType, PaymentMethod, ok, err, get_session_by_id,
  get_branch_by_id, get_organization_by_id, get_promo_by_code_for_update,
}
use qr_dining.Presence.{get_last_seen_for_session}
use qr_dining.Tenant.{ensure_branch_admits_guests, resolve, invalidate, read_status}
use qr_dining.Tenant.Admission.{ActiveTenant, admitted_tenant_is_active, next_guest_admitted_iff}
use qr_dining.Promo.{ValidatePromoRequest, ValidatePromoResult, compute_discount, validate_promo}
use qr_dining.Promo.Validation.{Applies, promo_of, accepted_promo-Applies}
use qr_dining.Session.{close_session, authorize_host_action, host_absent_from_presence}
use qr_dining.Payment.{
  InitiatePaymentRequest, initiate_payment, process_webhook, WebhookCodec, ProcessWebhookRequest,
}
use qr_dining.Payment.Releasing.{refused_guest_freezes_nothing}
use qr_dining.Safety.{OneLiveSession, OneOpenPayment, Moves, session_of}
use qr_dining.Safety.Steps.{
  done, after, closes, tables_are_not_shared, bills_are_not_collected_twice,
  status_follows_the_table, over_stays_over, event_heard_once,
}
use qr_dining.Tests.Fixtures.{config, dinner, world}
use qr_dining.Tests.PaymentRuns.{paying}

ten_is_admitted : (ensure_branch_admits_guests 10 world).0 ≡ ok tt
unfolding ensure_branch_admits_guests resolve read_status get_branch_by_id get_organization_by_id
ten_is_admitted = refl

admitted_tenant_is_active_example : ActiveTenant 10 world
admitted_tenant_is_active_example = admitted_tenant_is_active 10 world refl ten_is_admitted

-- The branch is active again, the cached decision says that it is suspended.
abbrev reactivated : World
reactivated = record world {
  tenant_cache =
      record {
        branch_id = 10;
        expires_at = 1030;
        value = record {
          organization_id = 1;
          organization_status = TenantState.active;
          branch_status = TenantState.suspended;
        };
      }
      ∷ [];
}

still_refused : (ensure_branch_admits_guests 10 reactivated).0 ≡ err branch_suspended
unfolding ensure_branch_admits_guests resolve
still_refused = refl

next_guest_admitted_iff_example :
    ((ensure_branch_admits_guests 10 (invalidate reactivated).1).0 ≡ ok tt)
    ↔ ActiveTenant 10 reactivated
next_guest_admitted_iff_example = next_guest_admitted_iff 10 reactivated

-- Ten percent.
abbrev tenth : Promo
tenth = record {
  id = 40;
  branch_id = 10;
  code = "TEN";
  promo_type = PromoType.percentage;
  value = 1000;
  min_order_amount = 0;
  max_uses = none;
  uses_per_phone = 0;
  valid_from = 0;
  valid_until = 5000;
  time_window_start = none;
  time_window_end = none;
  is_active = true;
  description = none;
  redeemed_count = 0;
}

abbrev promoted : World
promoted = record world { promos = tenth ∷ [] }

abbrev ask : ValidatePromoRequest
ask = record { branch_id = 10; code = "TEN"; order_total = 45005; phone = none }

abbrev answer : ValidatePromoResult
answer = record { promo_id = 40; discount_amount = 4501; normalized_phone = none }

ten_percent_off : (validate_promo config ask promoted).0 ≡ ok answer
unfolding validate_promo get_promo_by_code_for_update compute_discount
ten_percent_off = refl

accepted_promo-Applies_example :
    (promo : Promo) × (promo_of config ask promoted ≡ some promo)
    × (40 ≡ promo.id)
    × (4501 ≡ compute_discount config promo 45005)
    × Applies promo ask none promoted
accepted_promo-Applies_example = accepted_promo-Applies config ask promoted answer ten_percent_off

abbrev wants_to_pay : InitiatePaymentRequest
wants_to_pay = record {
  session_id = 100;
  branch_id = 10;
  order_id = none;
  method = PaymentMethod.cash;
  bill = record {
    subtotal = 45000;
    discount_amount = 0;
    tax_amount = 0;
    service_charge = 0;
    tip_amount = 0;
    total = 45000;
    currency = "INR";
    source_order_ids = [];
    created_by_actor = "participant:202";
  };
  staff_settlement_required = true;
  provider = "";
  provider_payment_ref = "";
  provider_order_ref = "";
  idempotency_key = "k1";
  actor_type = "participant";
  actor_id = 202;
  promo_code = none;
  promo_phone = none;
}

ravi_is_refused : (authorize_host_action config 100 202 world).0 ≡ ok false
unfolding authorize_host_action get_session_by_id host_absent_from_presence
    get_last_seen_for_session
ravi_is_refused = refl

refused_guest_freezes_nothing_example :
    initiate_payment config (λ req. "h") wants_to_pay "pay_1" world ≡ (err not_session_host, world)
refused_guest_freezes_nothing_example =
    refused_guest_freezes_nothing config (λ req. "h") wants_to_pay "pay_1" world refl
      ravi_is_refused

one_dinner_per_table : OneLiveSession paying
one_dinner_per_table t = ground arith

one_bill_per_dinner : OneOpenPayment paying
one_bill_per_dinner s = ground arith

tables_are_not_shared_example : OneLiveSession (close_session 100 none paying).1
tables_are_not_shared_example =
    tables_are_not_shared {cfg = config} (after (closes 100 none paying) done) one_dinner_per_table

bills_are_not_collected_twice_example : OneOpenPayment (close_session 100 none paying).1
bills_are_not_collected_twice_example =
    bills_are_not_collected_twice {cfg = config} (after (closes 100 none paying) done)
      one_bill_per_dinner

status_follows_the_table_example :
    (s' : Session) × (session_of 100 (close_session 100 none world).1 ≡ some s')
    × Moves active s'.status
status_follows_the_table_example =
    status_follows_the_table {cfg = config} 100 dinner (after (closes 100 none world) done) refl

abbrev ended : Session
ended = record dinner { status = closed }

abbrev over : World
over = record world { sessions = ended ∷ [] }

over_stays_over_example :
    (s' : Session) × (session_of 100 (close_session 100 none over).1 ≡ some s')
    × (s'.status ≡ closed)
over_stays_over_example =
    over_stays_over {cfg = config} 100 ended (after (closes 100 none over) done) refl refl

abbrev webhooks : WebhookCodec
webhooks = record {
  unmarshal = λ text. some (record {
    payment_ref = "pay_1";
    amount = 45000;
    currency = "INR";
    session_id = "s";
    branch_id = 10;
  });
  parse_uuid = λ text. some 100;
}

abbrev captured : ProcessWebhookRequest
captured = record {
  provider = "generic";
  external_event_id = "evt_1";
  event_type = "payment.captured";
  payload = "{}";
}

event_heard_once_example :
    process_webhook webhooks captured (process_webhook webhooks captured paying).1
    ≡ (ok tt, (process_webhook webhooks captured paying).1)
event_heard_once_example =
    event_heard_once {cfg = config} webhooks webhooks captured captured paying refl done
