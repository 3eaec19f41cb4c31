-- ===== src/Safety/Steps.antt =====
-- The service as a step relation: any of its calls, in any order and with any arguments, and what the
-- rest of the world does meanwhile (backend/internal/services/session.go, session_close.go,
-- payment.go, order.go, cart.go, and backend/internal/worker/worker.go).
use Prim.Native.String.{String}
use qr_dining.Base.{
  ℕ, ◌+◌, ◌≡◌, refl, sym, subst, ap, inl, inr, Bool, true, false, Option, none, some, List, ◌∷◌,
  arith, Bool-cases,
}
use qr_dining.Base.Rows.{exists}
use text.Mathlib.Text.{◌==◌ as str_eq}
use text.Mathlib.TextEquality.{eq_iff}
use qr_dining.Domain.{OrderStatus, is_session_terminal, validate_session_transition}
use qr_dining.Store.{
  World, Session, Participant, MenuItem, ItemModifier, Restaurant, Heartbeats, Config, WebhookEvent,
  ok, pure, if_found, ◌>>=◌, insert_webhook_event,
}
use qr_dining.Session.{
  create_session, join_session, reactivate, close_session, abandon_stale_session,
  authorize_host_action, transfer_host, ensure_host_baseline,
}
use qr_dining.Payment.{
  InitiatePaymentRequest, ProcessWebhookRequest, WebhookCodec, initiate_payment, handle_event,
  settle_payment_by_staff, cancel_payment_by_staff, force_close_by_staff, process_webhook,
}
use qr_dining.Cart.{AddItemRequest, get_cart, add_item, remove_item}
use qr_dining.Order.{PlaceOrderRequest, HashPayload, place_order, update_order_status}
use qr_dining.Worker.{
  run_reactivation_pipeline, clean_stale_sessions, warn_expiring_sessions, reconcile_session_tables,
  reap_idempotency_keys,
}
use qr_dining.Safety.Workers.{
  Keeps-run_reactivation_pipeline, Keeps-clean_stale_sessions, Keeps-warn_expiring_sessions,
  Keeps-reconcile_session_tables, Keeps-reap_idempotency_keys,
}
use qr_dining.Safety.Ordering.{
  Keeps-get_cart, Keeps-add_item, Keeps-remove_item, Keeps-place_order, Keeps-update_order_status,
}
use qr_dining.Safety.Rules.{
  Good, Good-refl, Good-trans, Good-same, kept, OneLiveSession, OneOpenPayment, Moves, session_of,
  one_live_of, one_open_of, Follows-of, Remembers-of,
}
use qr_dining.Safety.Sessions.{
  Keeps-create_session, Keeps-join_session, Keeps-reactivate, Keeps-close_session,
  Keeps-abandon_stale_session, Keeps-authorize_host_action, Keeps-transfer_host,
  Keeps-ensure_host_baseline,
}
use qr_dining.Safety.Payments.{
  Keeps-settle_payment_by_staff, Keeps-cancel_payment_by_staff, Keeps-force_close_by_staff,
}
use qr_dining.Safety.Charges.{Keeps-initiate_payment, Keeps-process_webhook, Keeps-handle_event}

pub data Step (cfg : Config) : World → World → Type 0 where
  creates :
      (table_id : ℕ) (name fingerprint : String) (phone : List ℕ) (token : String) (w : World)
      → Step cfg w (create_session cfg table_id name fingerprint phone token w).1
  joins :
      (id : ℕ) (name fingerprint : String) (phone : List ℕ) (w : World)
      → Step cfg w (join_session id name fingerprint phone w).1
  reactivates : (id : ℕ) (w : World) → Step cfg w (reactivate id w).1
  closes : (id : ℕ) (requester : Option ℕ) (w : World) → Step cfg w (close_session id requester w).1
  force_closes :
      (id staff_id branch_id : ℕ) (reason : String) (w : World)
      → Step cfg w (force_close_by_staff id staff_id branch_id reason w).1
  abandons : (id table_id : ℕ) (w : World) → Step cfg w (abandon_stale_session id table_id w).1
  authorizes :
      (id acting_id : ℕ) (w : World) → Step cfg w (authorize_host_action cfg id acting_id w).1
  transfers :
      (id acting_id target_id : ℕ) (w : World)
      → Step cfg w (transfer_host id acting_id target_id w).1
  baselines :
      (sess : Session) (ps : List Participant) (w : World)
      → Step cfg w (ensure_host_baseline cfg sess ps w).1
  initiates :
      (hash : InitiatePaymentRequest → String) (req : InitiatePaymentRequest) (ref : String)
      (w : World)
      → Step cfg w (initiate_payment cfg hash req ref w).1
  settles :
      (payment_id staff_id branch_id : ℕ) (w : World)
      → Step cfg w (settle_payment_by_staff payment_id staff_id branch_id w).1
  cancels :
      (payment_id staff_id branch_id : ℕ) (reason : String) (w : World)
      → Step cfg w (cancel_payment_by_staff payment_id staff_id branch_id reason w).1
  hears :
      (codec : WebhookCodec) (req : ProcessWebhookRequest) (w : World)
      → Step cfg w (process_webhook codec req w).1
  waits : (now : ℕ) (w : World) → Step cfg w (record w { now = now })
  beats :
      (scoped : ℕ → ℕ → ℕ → Heartbeats) (unscoped : ℕ → Heartbeats) (w : World)
      → Step cfg w (record w { scoped_presence = scoped; unscoped_presence = unscoped })
  opens_cart : (id : ℕ) (w : World) → Step cfg w (get_cart id w).1
  adds_item : (req : AddItemRequest) (w : World) → Step cfg w (add_item req w).1
  removes_item :
      (id participant_id item_id : ℕ) (w : World)
      → Step cfg w (remove_item id participant_id item_id w).1
  places :
      (digest : HashPayload → String) (req : PlaceOrderRequest) (w : World)
      → Step cfg w (place_order cfg digest req w).1
  progresses :
      (order_id branch_id : ℕ) (next : OrderStatus) (staff_id : ℕ) (w : World)
      → Step cfg w (update_order_status order_id branch_id next staff_id w).1
  sweeps :
      (presence_grace idle_grace window : ℕ) (w : World)
      → Step cfg w (run_reactivation_pipeline presence_grace idle_grace window w).1
  cleans : (w : World) → Step cfg w (clean_stale_sessions w).1
  warns : (w : World) → Step cfg w (warn_expiring_sessions w).1
  reconciles : (w : World) → Step cfg w (reconcile_session_tables w).1
  reaps :
      (budget retention : ℕ) (w : World) → Step cfg w (reap_idempotency_keys budget retention w).1
  -- The staff edit the menu and the restaurant's settings.
  edits :
      (menu : List MenuItem) (modifiers : List ItemModifier) (rows : List Restaurant) (w : World)
      → Step cfg w (record w { menu_items = menu; item_modifiers = modifiers; restaurants = rows })

pub data Reach (cfg : Config) : World → World → Type 0 where
  done : {w : World} → Reach cfg w w
  after : {u v w : World} → Step cfg u v → Reach cfg v w → Reach cfg u w

Good-step : {cfg : Config} {w w' : World} → Step cfg w w' → Good w w'
Good-step (creates t n f p k w) = kept (Keeps-create_session _ t n f p k) w
Good-step (joins id n f p w) = kept (Keeps-join_session id n f p) w
Good-step (reactivates id w) = kept (Keeps-reactivate id) w
Good-step (closes id r w) = kept (Keeps-close_session id r) w
Good-step (force_closes id s b r w) = kept (Keeps-force_close_by_staff id s b r) w
Good-step (abandons id t w) = kept (Keeps-abandon_stale_session id t) w
Good-step (authorizes id a w) = kept (Keeps-authorize_host_action _ id a) w
Good-step (transfers id a t w) = kept (Keeps-transfer_host id a t) w
Good-step (baselines s ps w) = kept (Keeps-ensure_host_baseline _ s ps) w
Good-step (initiates h r f w) = kept (Keeps-initiate_payment _ h r f) w
Good-step (settles p s b w) = kept (Keeps-settle_payment_by_staff p s b) w
Good-step (cancels p s b r w) = kept (Keeps-cancel_payment_by_staff p s b r) w
Good-step (hears c r w) = kept (Keeps-process_webhook c r) w
Good-step (waits n w) = Good-same w _ refl refl refl (refl, refl, omega arith)
Good-step (beats s u w) = Good-same w _ refl refl refl (refl, refl, omega arith)
Good-step (opens_cart id w) = kept (Keeps-get_cart id) w
Good-step (adds_item req w) = kept (Keeps-add_item req) w
Good-step (removes_item id p i w) = kept (Keeps-remove_item id p i) w
Good-step (places d req w) = kept (Keeps-place_order _ d req) w
Good-step (progresses o b n s w) = kept (Keeps-update_order_status o b n s) w
Good-step (sweeps p i r w) = kept (Keeps-run_reactivation_pipeline p i r) w
Good-step (cleans w) = kept Keeps-clean_stale_sessions w
Good-step (warns w) = kept Keeps-warn_expiring_sessions w
Good-step (reconciles w) = kept Keeps-reconcile_session_tables w
Good-step (reaps b r w) = kept (Keeps-reap_idempotency_keys b r) w
Good-step (edits m i r w) = Good-same w _ refl refl refl (refl, refl, omega arith)

pub Good-reach : {cfg : Config} {w w' : World} → Reach cfg w w' → Good w w'
Good-reach done = Good-refl
Good-reach (after s r) = Good-trans (Good-step s) (Good-reach r)

-- Whatever the service is asked to do, in any order and whichever calls fail, no table ever has two
-- live sessions if none has to begin with.
pub tables_are_not_shared :
    {cfg : Config} {w w' : World} → Reach cfg w w' → OneLiveSession w → OneLiveSession w'
tables_are_not_shared r = one_live_of (Good-reach r)

-- Whatever the service is asked to do, in any order and whichever calls fail, no session ever has two
-- payments under way if none has to begin with: no bill is collected twice at a time.
pub bills_are_not_collected_twice :
    {cfg : Config} {w w' : World} → Reach cfg w w' → OneOpenPayment w → OneOpenPayment w'
bills_are_not_collected_twice r = one_open_of (Good-reach r)

-- No session is ever lost, and between any two moments of its life its status has stayed or moved as
-- the transition table of the domain allows, though no service consults that table.
pub status_follows_the_table :
    {cfg : Config} {w w' : World} (id : ℕ) (s : Session)
    → Reach cfg w w'
    → session_of id w ≡ some s
    → (s' : Session) × (session_of id w' ≡ some s') × Moves s.status s'.status
status_follows_the_table id s r = Follows-of (Good-reach r) id s

-- A session that is closed, abandoned or expired stays so for ever.
pub over_stays_over :
    {cfg : Config} {w w' : World} (id : ℕ) (s : Session)
    → Reach cfg w w'
    → session_of id w ≡ some s
    → is_session_terminal s.status ≡ true
    → (s' : Session) × (session_of id w' ≡ some s') × (s'.status ≡ s.status)
unfolding validate_session_transition
over_stays_over id s r found over =
    let (s', found', m) = status_follows_the_table id s r found in (s', found', ground arith)

abbrev pub is_recorded : String → World → Bool
is_recorded event w =
    exists (λ (e : WebhookEvent). str_eq e.external_event_id event) w.webhook_events

insert-known :
    (event provider event_type : String) (w : World)
    → is_recorded event w ≡ true
    → insert_webhook_event event provider event_type w ≡ (ok none, w)
unfolding insert_webhook_event
insert-known event provider event_type w h = rw h refl

heard_again :
    (codec : WebhookCodec) (req : ProcessWebhookRequest) (w : World)
    → is_recorded req.external_event_id w ≡ true
    → process_webhook codec req w ≡ (ok tt, w)
unfolding process_webhook
heard_again codec req w h =
    ap (λ r. ((λ _. r) >>= λ event. if_found event (handle_event codec req) (pure tt)) w)
      (insert-known req.external_event_id req.provider req.event_type w h)

abbrev new_event : ProcessWebhookRequest → World → World
new_event req w = record w {
  webhook_events =
      record {
        id = w.next_id;
        external_event_id = req.external_event_id;
        provider = req.provider;
        event_type = req.event_type;
        processed = false;
        payment_id = none;
        failed = false;
      }
      ∷ w.webhook_events;
  next_id = w.next_id + 1;
}

insert-new :
    (req : ProcessWebhookRequest) (w : World)
    → is_recorded req.external_event_id w ≡ false
    → insert_webhook_event req.external_event_id req.provider req.event_type w
      ≡ (ok (some w.next_id), new_event req w)
unfolding insert_webhook_event
insert-new req w h = rw h refl

heard_first :
    (codec : WebhookCodec) (req : ProcessWebhookRequest) (w : World)
    → is_recorded req.external_event_id w ≡ false
    → process_webhook codec req w ≡ handle_event codec req w.next_id (new_event req w)
unfolding process_webhook
heard_first codec req w h =
    ap (λ r. ((λ _. r) >>= λ event. if_found event (handle_event codec req) (pure tt)) w)
      (insert-new req w h)

-- Processing an event records it.
recorded :
    (codec : WebhookCodec) (req : ProcessWebhookRequest) (w : World)
    → is_recorded req.external_event_id (process_webhook codec req w).1 ≡ true
recorded codec req w =
    let self : is_recorded req.external_event_id (new_event req w) ≡ true =
      rw ((eq_iff req.external_event_id req.external_event_id).1 refl) refl in
    elim (Bool-cases (is_recorded req.external_event_id w)) [
      | inl known ↦ rw (heard_again codec req w known) known
      | inr new ↦ rw (heard_first codec req w new) (
          Remembers-of (kept (Keeps-handle_event codec req w.next_id) (new_event req w))
            req.external_event_id self)
    ]

-- Once a provider's event has been processed, whatever happens then, hearing it again does nothing: it
-- settles no payment twice, accrues no points twice and announces nothing twice.
pub event_heard_once :
    {cfg : Config} (codec codec' : WebhookCodec) (req req' : ProcessWebhookRequest) (w : World)
    {w' : World}
    → req'.external_event_id ≡ req.external_event_id
    → Reach cfg (process_webhook codec req w).1 w'
    → process_webhook codec' req' w' ≡ (ok tt, w')
event_heard_once codec codec' req req' w {w'} same r = heard_again codec' req' w' (
    subst (λ k. is_recorded k w' ≡ true) (sym same)
      (Remembers-of (Good-reach r) req.external_event_id (recorded codec req w)))
