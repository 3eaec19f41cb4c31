-- ===== src/Safety/PaymentRows.antt =====
-- The queries on payments, keys and promos keep the rules.
use Prim.Native.String.{String}
use text.Mathlib.Text.{◌==◌ as str_eq}
use qr_dining.Base.{
  ℕ, ◌≡◌, refl, inl, Bool, true, false, ◌&&◌, not, Option, none, some, List, [], ◌∷◌, ◌==◌, arith,
  subst, ◌+◌, if◌then◌else◌, Bool-cases, inr,
}
use qr_dining.Base.Rows.{find?, exists, update_where, count-update_where, count-none}
use qr_dining.Domain.{
  PaymentStatus, PaymentStatus-comparable, requires_staff_confirmation, one_non_terminal_violation,
  unique_violation,
}
use qr_dining.Store.{
  World, Payment, WebhookEvent, BillSnapshot, Promo, Config, IdempotencyScope, IdempotencyKey,
  Result, ok, err, is_terminal_payment_status, is_open_for, is_status, returned, move_payment,
  settle, has_provider_ref, update_payment_status_expected, settle_payment_row, create_payment,
  create_bill_snapshot, next_payment_number, get_payment_by_id, get_bill_snapshot_by_id,
  get_payment_by_provider_ref, insert_webhook_event, mark_webhook_processed, create_idempotency_key,
  get_idempotency_key, complete_idempotency_key, fail_idempotency_key, get_promo_by_code_for_update,
  create_promo_redemption_for_payment, increment_promo_redemption_count,
}
use qr_dining.Safety.Rules.{
  SameBooks, Books-same, Good, good, Good-refl, Good-if, Keeps, keeps, kept, Keeps-same,
  Keeps-or_fail,
}

-- An update that only ends payments, and keeps their sessions.
Good-update :
    (p : Payment → Bool) (f : Payment → Payment) (w w' : World)
    → ((r : Payment) → (f r).session_id ≡ r.session_id)
    → ((r : Payment) → is_terminal_payment_status (f r).status ≡ true)
    → w'.sessions ≡ w.sessions
    → w'.payments ≡ update_where p f w.payments
    → w'.webhook_events ≡ w.webhook_events
    → SameBooks w w'
    → Good w w'
Good-update p f w w' same ends hs hp he hb =
    good (λ h t. rw hs (h t))
      (λ h s.
        let fewer =
          count-update_where (is_open_for s) p f (λ r e e'. ground (arith, same r, ends r))
            w.payments in
        rw hp (ground (arith, h s, fewer)))
      (λ id s h. (s, rw hs h, inl refl)) (λ e h. rw he h) (Books-same w w' hb)

Good-returned :
    (id : ℕ) (done : Bool) (row : Option Payment) (w : World) {u : World}
    → Good u w
    → Good u (returned id done row w).1
Good-returned id true none w h = h
Good-returned id true (some p) w h = h
Good-returned id false row w h = h

pub Keeps-update_payment_status_expected :
    (id : ℕ) (current next : PaymentStatus)
    → is_terminal_payment_status next ≡ true
    → Keeps (update_payment_status_expected id current next)
unfolding update_payment_status_expected
Keeps-update_payment_status_expected id current next ends = keeps λ w.
    let p : Payment → Bool = λ p. p.id == id && is_status p.status current in
    let rows = update_where p (move_payment next w.now) w.payments in
    Good-returned id (exists p w.payments) (find? (λ r. r.id == id) rows)
      (record w { payments = rows })
      (Good-update p (move_payment next w.now) w _ (λ r. refl) (λ r. ends) refl refl refl
        (refl, refl, omega arith))

pub Keeps-settle_payment_row :
    (id staff_id branch_id : ℕ) → Keeps (settle_payment_row id staff_id branch_id)
unfolding settle_payment_row
Keeps-settle_payment_row id staff_id branch_id = keeps λ w.
    let p : Payment → Bool = λ p.
      p.id == id && (p.branch_id == branch_id && is_status p.status requires_staff_confirmation) in
    let rows = update_where p (settle staff_id w.now) w.payments in
    Good-returned id (exists p w.payments) (find? (λ r. r.id == id) rows)
      (record w { payments = rows })
      (Good-update p (settle staff_id w.now) w _ (λ r. refl) (λ r. refl) refl refl refl
        (refl, refl, omega arith))

-- A payment that the index admits.
Good-insert :
    (row : Payment) (w w' : World)
    → w'.sessions ≡ w.sessions
    → w'.payments ≡ row ∷ w.payments
    → w'.webhook_events ≡ w.webhook_events
    → SameBooks w w'
    → (not (is_terminal_payment_status row.status)
        && exists (is_open_for row.session_id) w.payments)
      ≡ false
    → Good w w'
Good-insert row w w' hs hp he hb free =
    good (λ h t. rw hs (h t))
      (λ h s. elim (Bool-cases (is_open_for s row)) [
        | inl here ↦
            let mine : row.session_id ≡ s = ground arith in
            let zero =
              count-none (is_open_for s) w.payments
                (subst (λ k. exists (is_open_for k) w.payments ≡ false) mine (ground arith)) in
            rw hp (ground (arith, zero))
        | inr other ↦ rw hp (ground (arith, h s))
      ])
      (λ id s h. (s, rw hs h, inl refl)) (λ e h. rw he h) (Books-same w w' hb)

pub Keeps-create_payment : (new : Payment) → Keeps (create_payment new)
unfolding create_payment
Keeps-create_payment new = keeps λ w.
    let row : Payment = record new { id = w.next_id } in
    let w' : World = record w { payments = row ∷ w.payments; next_id = w.next_id + 1 } in
    Good-if {A = Result Payment}
      (not (is_terminal_payment_status new.status)
        && exists (is_open_for new.session_id) w.payments)
      (err one_non_terminal_violation, w)
      (if has_provider_ref new w then (err unique_violation, w) else (ok row, w'))
      (λ taken. Good-refl)
      (λ free.
        Good-if {A = Result Payment} (has_provider_ref new w) (err unique_violation, w) (ok row, w')
          (λ used. Good-refl)
          (λ fresh. Good-insert row w w' refl refl refl (refl, refl, omega arith) free))

pub Keeps-get_payment_by_id : (id : ℕ) → Keeps (get_payment_by_id id)
unfolding get_payment_by_id
Keeps-get_payment_by_id id =
    keeps λ w. kept (Keeps-or_fail (find? (λ (p : Payment). p.id == id) w.payments) _) w

pub Keeps-get_bill_snapshot_by_id : (id : ℕ) → Keeps (get_bill_snapshot_by_id id)
unfolding get_bill_snapshot_by_id
Keeps-get_bill_snapshot_by_id id =
    keeps λ w. kept (Keeps-or_fail (find? (λ (b : BillSnapshot). b.id == id) w.bill_snapshots) _) w

pub Keeps-get_payment_by_provider_ref :
    (provider ref : String) → Keeps (get_payment_by_provider_ref provider ref)
unfolding get_payment_by_provider_ref
Keeps-get_payment_by_provider_ref provider ref = keeps λ w. kept (Keeps-or_fail {A = Payment} _ _) w

pub Keeps-create_bill_snapshot : (new : BillSnapshot) → Keeps (create_bill_snapshot new)
unfolding create_bill_snapshot
Keeps-create_bill_snapshot new =
    Keeps-same _ (λ w. refl) (λ w. refl) (λ w. refl) (λ w. (refl, refl, omega arith))

pub Keeps-next_payment_number : (branch date : ℕ) → Keeps (next_payment_number branch date)
unfolding next_payment_number
Keeps-next_payment_number branch date =
    Keeps-same _ (λ w. refl) (λ w. refl) (λ w. refl) (λ w. (refl, refl, omega arith))

pub Keeps-get_idempotency_key : (scope : IdempotencyScope) → Keeps (get_idempotency_key scope)
unfolding get_idempotency_key
Keeps-get_idempotency_key scope = keeps λ w. kept (Keeps-or_fail {A = IdempotencyKey} _ _) w

pub Keeps-create_idempotency_key :
    (scope : IdempotencyScope) (hash : String) (expires : ℕ)
    → Keeps (create_idempotency_key scope hash expires)
unfolding create_idempotency_key
Keeps-create_idempotency_key scope hash expires =
    Keeps-same _ (λ w. ground arith) (λ w. ground arith) (λ w. ground arith)
      (λ w. (ground arith, ground arith, ground arith))

pub Keeps-complete_idempotency_key :
    (scope : IdempotencyScope) (id : ℕ) → Keeps (complete_idempotency_key scope id)
unfolding complete_idempotency_key
Keeps-complete_idempotency_key scope id =
    Keeps-same _ (λ w. refl) (λ w. refl) (λ w. refl) (λ w. (refl, refl, omega arith))

pub Keeps-fail_idempotency_key : (scope : IdempotencyScope) → Keeps (fail_idempotency_key scope)
unfolding fail_idempotency_key
Keeps-fail_idempotency_key scope =
    Keeps-same _ (λ w. refl) (λ w. refl) (λ w. refl) (λ w. (refl, refl, omega arith))

pub Keeps-get_promo :
    (cfg : Config) (branch_id : ℕ) (code : String)
    → Keeps (get_promo_by_code_for_update cfg branch_id code)
unfolding get_promo_by_code_for_update
Keeps-get_promo cfg branch_id code = keeps λ w. kept (Keeps-or_fail {A = Promo} _ _) w

pub Keeps-create_promo_redemption :
    (promo_id payment_id : ℕ) (phone : Option (List ℕ))
    → Keeps (create_promo_redemption_for_payment promo_id payment_id phone)
unfolding create_promo_redemption_for_payment
Keeps-create_promo_redemption promo_id payment_id phone =
    Keeps-same _ (λ w. ground arith) (λ w. ground arith) (λ w. ground arith)
      (λ w. (ground arith, ground arith, ground arith))

pub Keeps-increment_promo : (promo_id : ℕ) → Keeps (increment_promo_redemption_count promo_id)
unfolding increment_promo_redemption_count
Keeps-increment_promo promo_id =
    Keeps-same _ (λ w. refl) (λ w. refl) (λ w. refl) (λ w. (refl, refl, omega arith))

pub Keeps-insert_webhook_event :
    (external provider event_type : String)
    → Keeps (insert_webhook_event external provider event_type)
unfolding insert_webhook_event
Keeps-insert_webhook_event external provider event_type = keeps λ w.
    good (λ h t. ground (arith, h t)) (λ h s. ground (arith, h s))
      (λ id s h. (s, ground arith, inl refl)) (λ e h. ground arith)
      (Books-same w _ (ground arith, ground arith, ground arith))

-- An update that keeps the events' own ids.
remembered :
    (event : String) (p : WebhookEvent → Bool) (f : WebhookEvent → WebhookEvent)
    (es : List WebhookEvent)
    → ((e : WebhookEvent) → (f e).external_event_id ≡ e.external_event_id)
    → exists (λ (e : WebhookEvent). str_eq e.external_event_id event) es ≡ true
    → exists (λ (e : WebhookEvent). str_eq e.external_event_id event) (update_where p f es) ≡ true
remembered event p f [] same h = h
remembered event p f (e ∷ es) same h = ground (arith, same e, remembered event p f es same)

pub Keeps-mark_webhook_processed :
    (id payment_id : ℕ) (e : Bool) → Keeps (mark_webhook_processed id payment_id e)
unfolding mark_webhook_processed
Keeps-mark_webhook_processed id payment_id e = keeps λ w.
    good (λ h. h) (λ h. h) (λ k s h. (s, h, inl refl))
      (λ event h.
        remembered event (λ r. r.id == id)
          (λ r. record r {
            processed = true;
            payment_id = if payment_id == 0 then none else some payment_id;
            failed = e;
          })
          w.webhook_events (λ r. refl) h)
      (Books-same w _ (refl, refl, omega arith))
