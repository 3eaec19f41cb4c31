-- ===== src/Order/Admission.antt =====
-- Who may order (PlaceOrder of backend/internal/services/order.go): what the guards leave behind, by which
-- the same request passes them again.
use qr_dining.Base.{
  ℕ, ⊤, ◌≡◌, refl, sym, ap, ◌∙◌, subst, Bool, true, false, ◌&&◌, not, some, List, ◌==◌, arith,
  Bool-cases, inl, inr,
}
use qr_dining.Base.Rows.{find?, find?-holds, find?-update_where, choose}
use qr_dining.Domain.{
  not_session_host, session_not_found, session_closed, payment_in_progress, tenant_mismatch,
  participant_not_in_session, participant_not_found, active, is_session_cart_frozen,
}
use qr_dining.Store.{
  World, Config, Session, Participant, ok, Op, pure, done_pure, fail_if, done_bind, done_or_fail,
  done_fail_if, ◌>>=◌, ◌>>◌, ◌is◌, get_session_by_id, get_participant_by_id,
  set_participant_host_flags, set_session_host,
}
use qr_dining.Session.{is_id, authorize_host_action, promote_acting, reassign_host}
use qr_dining.Session.Authority.{session_row, reassigned}
use qr_dining.Order.{PlaceOrderRequest, open_session, require_ordering_host}

-- What the guards do not touch.
abbrev pub SameLedger : World → World → Type 0
SameLedger w w' =
    (w'.idempotency_keys ≡ w.idempotency_keys)
    × (w'.orders ≡ w.orders)
    × (w'.order_items ≡ w.order_items)
    × (w'.next_id ≡ w.next_id)
    × (w'.now ≡ w.now)

-- After a host action was authorized.
data Hosted (sess : Session) (p : Participant) (session_id acting_id : ℕ) (w w' : World)
    : Type 0 where
  hosted :
      (row : Session) (q : Participant)
      → find? (λ (s : Session). s.id == session_id) w'.sessions ≡ some row
      → row.status ≡ sess.status
      → row.branch_id ≡ sess.branch_id
      → is_id row.host_participant_id acting_id ≡ true
      → find? (λ (r : Participant). r.id == acting_id) w'.participants ≡ some q
      → q.session_id ≡ p.session_id
      → SameLedger w w'
      → Hosted sess p session_id acting_id w w'

-- The row of a participant after the host role has been given away.
abbrev flagged : ℕ → ℕ → Participant → Participant
flagged session_id new_host p =
    choose (p.session_id == session_id) (record p { is_host = p.id == new_host }) p

flagged-session :
    (session_id new_host : ℕ) (p : Participant)
    → (flagged session_id new_host p).session_id ≡ p.session_id
flagged-session session_id new_host p = ground arith

flagged_row :
    (sess : Session) (target p : Participant) (w : World)
    → find? (λ (r : Participant). r.id == p.id) w.participants ≡ some p
    → find? (λ (r : Participant). r.id == p.id) (reassign_host sess target w).1.participants
      ≡ some (flagged sess.id target.id p)
unfolding reassign_host set_participant_host_flags set_session_host
flagged_row sess target p w known =
    let updated =
      find?-update_where (λ (r : Participant). r.id) (λ r. r.session_id == sess.id)
        (λ r. record r { is_host = r.id == target.id }) p.id w.participants (λ r. refl) in
    rw known at updated

reassign_host-Ledger :
    (sess : Session) (target : Participant) (w : World)
    → SameLedger w (reassign_host sess target w).1
unfolding reassign_host set_participant_host_flags set_session_host
reassign_host-Ledger sess target w = (refl, refl, refl, refl, refl)

authorized-Hosted :
    (cfg : Config) (session_id acting_id : ℕ) (w : World) (sess : Session) (p : Participant)
    → find? (λ (s : Session). s.id == session_id) w.sessions ≡ some sess
    → find? (λ (r : Participant). r.id == acting_id) w.participants ≡ some p
    → (authorize_host_action cfg session_id acting_id w).0 ≡ ok true
    → Hosted sess p session_id acting_id w (authorize_host_action cfg session_id acting_id w).1
unfolding authorize_host_action promote_acting get_session_by_id get_participant_by_id
authorized-Hosted cfg session_id acting_id w sess p found known h =
    elim (Bool-cases (is_id sess.host_participant_id acting_id)) [
      | inl is_host ↦
          hosted sess p (ground arith) refl refl is_host (ground arith) refl
            (ground arith, ground arith, ground arith, ground arith, ground arith)
      | inr other ↦
          let here = find?-holds (λ (s : Session). s.id == session_id) w.sessions found in
          let me = find?-holds (λ (q : Participant). q.id == acting_id) w.participants known in
          let same : sess.id ≡ session_id = ground arith in
          let mine : p.id ≡ acting_id = ground arith in
          let given : (authorize_host_action cfg session_id acting_id w).1
              ≡ (reassign_host sess p w).1 =
            ground arith in
          let found' = subst (λ k. session_row k w ≡ some sess) (sym same) found in
          let known' =
            subst (λ k. find? (λ (r : Participant). r.id == k) w.participants ≡ some p) (sym mine)
              known in
          let row =
            subst
              (λ k.
                session_row k (reassign_host sess p w).1
                ≡ some (record sess { host_participant_id = some p.id }))
              same (reassigned sess p w found') in
          let flag =
            subst
              (λ k.
                find? (λ (r : Participant). r.id == k) (reassign_host sess p w).1.participants
                ≡ some (flagged sess.id p.id p))
              mine (flagged_row sess p p w known') in
          rw given (
            hosted (record sess { host_participant_id = some p.id }) (flagged sess.id p.id p) row
              refl refl (ground arith) flag (flagged-session sess.id p.id p)
              (reassign_host-Ledger sess p w))
    ]

-- What lets a request pass the guards without a trace: an active session of the branch, with the
-- requester for its host.
pub data MayOrder (req : PlaceOrderRequest) (sessions : List Session)
    (participants : List Participant) : Type 0 where
  may_order :
      (sess : Session) (p : Participant)
      → find? (λ (s : Session). s.id == req.session_id) sessions ≡ some sess
      → is_session_cart_frozen sess.status ≡ false
      → (sess.status is active) ≡ true
      → (not (req.branch_id == 0) && not (req.branch_id == sess.branch_id)) ≡ false
      → is_id sess.host_participant_id req.placed_by_participant_id ≡ true
      → find? (λ (r : Participant). r.id == req.placed_by_participant_id) participants ≡ some p
      → (p.session_id == req.session_id) ≡ true
      → MayOrder req sessions participants

unfailed : (b : Bool) → not b ≡ false → b ≡ true
unfailed true h = refl
unfailed false h = absurd (cc)

module _ (cfg : Config) (req : PlaceOrderRequest) (w : World) where
  pub MayOrder-passes :
      MayOrder req w.sessions w.participants
      → ((sess : Session) × (open_session req w ≡ (ok sess, w)))
        × (require_ordering_host cfg req w ≡ (ok tt, w))
  unfolding open_session require_ordering_host authorize_host_action get_session_by_id
      get_participant_by_id
  MayOrder-passes (may_order sess p found warm live here host known mine) =
      ((sess, ground arith), ground arith)

  -- The session of a request that passed the first guards.
  abbrev Opened : Session → Type 0
  Opened sess =
      (find? (λ (s : Session). s.id == req.session_id) w.sessions ≡ some sess)
      × (is_session_cart_frozen sess.status ≡ false)
      × ((sess.status is active) ≡ true)
      × ((not (req.branch_id == 0) && not (req.branch_id == sess.branch_id)) ≡ false)

  pub open_session-Opened :
      (sess : Session) (w' : World) → open_session req w ≡ (ok sess, w') → (w' ≡ w) × Opened sess
  unfolding open_session get_session_by_id
  open_session-Opened sess w' h =
      let frozen : Session → Op ⊤ =
        λ s. fail_if (is_session_cart_frozen s.status) payment_in_progress in
      let over : Session → Op ⊤ = λ s. fail_if (not (s.status is active)) session_closed in
      let elsewhere : Session → Op ⊤ = λ s.
        fail_if (not (req.branch_id == 0) && not (req.branch_id == s.branch_id)) tenant_mismatch in
      let (row, w₁, e₁, h₁) =
        done_bind (get_session_by_id req.session_id)
          (λ s. frozen s >> (over s >> (elsewhere s >> pure s))) w w' sess h in
      let (found, s₁) =
        done_or_fail (find? (λ (s : Session). s.id == req.session_id) w.sessions) session_not_found
          w w₁ row e₁ in
      let (_, w₂, e₂, h₂) =
        done_bind (frozen row) (λ _. over row >> (elsewhere row >> pure row)) w₁ w' sess h₁ in
      let (warm, s₂) =
        done_fail_if (is_session_cart_frozen row.status) payment_in_progress w₁ w₂ e₂ in
      let (_, w₃, e₃, h₃) = done_bind (over row) (λ _. elsewhere row >> pure row) w₂ w' sess h₂ in
      let (live, s₃) = done_fail_if (not (row.status is active)) session_closed w₂ w₃ e₃ in
      let (_, w₄, e₄, h₄) = done_bind (elsewhere row) (λ _. pure row) w₃ w' sess h₃ in
      let (here, s₄) =
        done_fail_if (not (req.branch_id == 0) && not (req.branch_id == row.branch_id))
          tenant_mismatch w₃ w₄ e₄ in
      let (same, s₅) = done_pure row sess w₄ w' h₄ in
      (
        s₅ ∙ s₄ ∙ s₃ ∙ s₂ ∙ s₁,
        subst (λ s. Opened s) same (found, warm, unfailed (row.status is active) live, here),
      )

  -- The participant of a request that passed the guard on the host.
  passed_guard :
      (w₁ : World)
      → require_ordering_host cfg req w ≡ (ok tt, w₁)
      → (p : Participant) × (find?
            (λ (r : Participant). r.id == req.placed_by_participant_id)
            w.participants
          ≡ some p)
        × ((p.session_id == req.session_id) ≡ true)
        × (authorize_host_action cfg req.session_id req.placed_by_participant_id w ≡ (ok true, w₁))
  unfolding require_ordering_host get_participant_by_id
  passed_guard w₁ h =
      let ask = authorize_host_action cfg req.session_id req.placed_by_participant_id in
      let finish : Bool → Op ⊤ = λ authorized. fail_if (not authorized) not_session_host in
      let check : Participant → Op ⊤ =
        λ p. fail_if (not (p.session_id == req.session_id)) participant_not_in_session in
      let (p, w₂, e, h₂) =
        done_bind (get_participant_by_id req.placed_by_participant_id)
          (λ p. check p >> (ask >>= finish)) w w₁ tt h in
      let (known, s₂) =
        done_or_fail
          (find? (λ (r : Participant). r.id == req.placed_by_participant_id) w.participants)
          participant_not_found w w₂ p e in
      let (_, w₃, e', h₃) = done_bind (check p) (λ _. ask >>= finish) w₂ w₁ tt h₂ in
      let (mine, s₃) =
        done_fail_if (not (p.session_id == req.session_id)) participant_not_in_session w₂ w₃ e' in
      let (authorized, w₄, e'', h₄) = done_bind ask finish w₃ w₁ tt h₃ in
      let (yes_, s₄) = done_fail_if (not authorized) not_session_host w₄ w₁ h₄ in
      let granted : authorized ≡ true = ground arith in
      (p, known, ground arith, ap ask (sym (s₃ ∙ s₂)) ∙ e'' ∙ (λ i. (ok (granted i), sym s₄ i)))

  -- Whoever passed all guards would pass them again.
  pub admitted-MayOrder :
      (sess : Session) (w₁ : World)
      → Opened sess
      → require_ordering_host cfg req w ≡ (ok tt, w₁)
      → MayOrder req w₁.sessions w₁.participants × SameLedger w w₁
  admitted-MayOrder sess w₁ (found, warm, live, here) h =
      let acting_id = req.placed_by_participant_id in
      let (p, known, mine, granted) = passed_guard w₁ h in
      elim (authorized-Hosted cfg req.session_id acting_id w sess p found known
        (ap (λ r. r.0) granted)) [
          | hosted row q found' status branch host known' same ledger ↦
              subst (λ v. MayOrder req v.sessions v.participants × SameLedger w v)
                (ap (λ r. r.1) granted)
                (
                  may_order row q found' (ap is_session_cart_frozen status ∙ warm)
                      (ap (λ s. s is active) status ∙ live)
                      (ap (λ b. not (req.branch_id == 0) && not (req.branch_id == b)) branch ∙ here)
                      host known' (ap (λ n. n == req.session_id) same ∙ mine),
                  ledger,
                )
        ]
