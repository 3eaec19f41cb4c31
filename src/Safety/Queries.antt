-- ===== src/Safety/Queries.antt =====
-- Each query keeps the rules (backend/internal/repository, backend/internal/db/sqlc).
use Prim.Native.String.{String}
use qr_dining.Base.{
  ℕ, ◌≡◌, refl, subst, inl, inr, Bool, true, false, ◌&&◌, ◌||◌, none, some, List, [], ◌∷◌, ◌++◌,
  ◌==◌, arith, Bool-cases,
}
use qr_dining.Base.Rows.{
  count-update_where, count-append_one, count-none, find?-append_one, find?-update_where,
}
use qr_dining.Domain.{
  SessionStatus, active, payment_pending, awaiting_reactivation, closed, abandoned,
  validate_session_transition,
}
use qr_dining.Store.{
  World, Session, Reference, is_live, update_session, close_session_if_active,
  transition_session_to_payment_pending, transition_session_to_active,
  transition_session_to_awaiting_reactivation, reactivate_session, abandon_row, set_session_host,
  insert_session, has_live_session, create_participant, ◌is◌,
}
use qr_dining.Safety.Rules.{
  SameBooks, Books-same, Good, good, Good-refl, Good-if, Keeps-same, Keeps, keeps, Moves,
}

pub Keeps-update_session :
    (id : ℕ) (from : SessionStatus → Bool) (set : Session → Session)
    → ((s : Session) → (set s).id ≡ s.id)
    → ((s : Session) → (set s).table_id ≡ s.table_id)
    → ((s : Session) → from s.status ≡ true → is_live s.status ≡ true)
    → ((s : Session) → from s.status ≡ true → Moves s.status (set s).status)
    → (w : World) → Good w (update_session id from set w).1
Keeps-update_session id from set same_id same_table live moves w =
    good
      (λ h t.
        let fewer =
          count-update_where (λ s. s.table_id == t && is_live s.status)
            (λ s. s.id == id && from s.status) set (λ s e e'. ground (arith, same_table s, live s))
            w.sessions in
        ground (arith, h t, fewer))
      (λ h. h)
      (λ k s h.
        let row =
          find?-update_where (λ (s : Session). s.id) (λ s. s.id == id && from s.status) set k
            w.sessions same_id in
        elim (Bool-cases (s.id == id && from s.status)) [
          | inl met ↦ (set s, ground (arith, row), moves s (ground arith))
          | inr other ↦ (s, ground (arith, row), inl refl)
        ])
      (λ e h. h) (Books-same w _ (refl, refl, omega arith))

pub Keeps-close_session_if_active : (id : ℕ) → Keeps (close_session_if_active id)
unfolding close_session_if_active validate_session_transition
Keeps-close_session_if_active id = keeps λ w.
    Keeps-update_session id is_live (λ s. record s { status = closed; closed_at = some w.now })
      (λ s. refl) (λ s. refl) (λ s e. e) (λ s e. ground arith) w

pub Keeps-transition_session_to_payment_pending :
    (id : ℕ) → Keeps (transition_session_to_payment_pending id)
unfolding transition_session_to_payment_pending validate_session_transition
Keeps-transition_session_to_payment_pending id = keeps (
    Keeps-update_session id (λ t. t is active) (λ s. record s { status = payment_pending })
      (λ s. refl) (λ s. refl) (λ s e. ground arith) (λ s e. ground arith))

pub Keeps-transition_session_to_active : (id : ℕ) → Keeps (transition_session_to_active id)
unfolding transition_session_to_active validate_session_transition
Keeps-transition_session_to_active id = keeps (
    Keeps-update_session id (λ t. t is payment_pending) (λ s. record s { status = active })
      (λ s. refl) (λ s. refl) (λ s e. ground arith) (λ s e. ground arith))

pub Keeps-transition_session_to_awaiting_reactivation :
    (id : ℕ) → Keeps (transition_session_to_awaiting_reactivation id)
unfolding transition_session_to_awaiting_reactivation validate_session_transition
Keeps-transition_session_to_awaiting_reactivation id = keeps λ w.
    Keeps-update_session id (λ t. t is active)
      (λ s. record s { status = awaiting_reactivation; awaiting_reactivation_at = some w.now })
      (λ s. refl) (λ s. refl) (λ s e. ground arith) (λ s e. ground arith) w

pub Keeps-reactivate_session : (id : ℕ) → Keeps (reactivate_session id)
unfolding reactivate_session validate_session_transition
Keeps-reactivate_session id = keeps (
    Keeps-update_session id (λ t. t is awaiting_reactivation)
      (λ s. record s { status = active; awaiting_reactivation_at = none; warned_at = none })
      (λ s. refl) (λ s. refl) (λ s e. ground arith) (λ s e. ground arith))

pub Keeps-abandon_row : (id : ℕ) → Keeps (abandon_row id)
unfolding abandon_row validate_session_transition
Keeps-abandon_row id = keeps λ w.
    Keeps-update_session id (λ t. t is active || t is awaiting_reactivation)
      (λ s. record s { status = abandoned; closed_at = some w.now }) (λ s. refl) (λ s. refl)
      (λ s e. ground arith) (λ s e. ground arith) w

pub Keeps-set_session_host : (id participant_id : ℕ) → Keeps (set_session_host id participant_id)
unfolding set_session_host
Keeps-set_session_host id participant_id = keeps λ w.
    good
      (λ h t.
        let fewer =
          count-update_where (λ (s : Session). s.table_id == t && is_live s.status)
            (λ s. s.id == id) (λ s. record s { host_participant_id = some participant_id })
            (λ s e e'. e') w.sessions in
        ground (arith, h t, fewer))
      (λ h. h)
      (λ k s h.
        let set : Session → Session = λ s. record s { host_participant_id = some participant_id } in
        let row =
          find?-update_where (λ (s : Session). s.id) (λ s. s.id == id) set k w.sessions
            (λ s. refl) in
        elim (Bool-cases (s.id == id)) [
          | inl met ↦ (set s, ground (arith, row), inl refl)
          | inr other ↦ (s, ground (arith, row), inl refl)
        ])
      (λ e h. h) (Books-same w _ (refl, refl, omega arith))

-- A new row on a table that no live session has.
Good-append :
    (row : Session) (w w' : World)
    → w'.sessions ≡ w.sessions ++ row ∷ []
    → w'.payments ≡ w.payments
    → w'.webhook_events ≡ w.webhook_events
    → SameBooks w w'
    → has_live_session row.table_id w ≡ false
    → Good w w'
Good-append row w w' hs hp he hb free =
    good
      (λ h t.
        let same = count-append_one (λ s. s.table_id == t && is_live s.status) w.sessions row in
        elim (Bool-cases (row.table_id == t)) [
          | inl mine ↦
              let zero =
                count-none (λ s. s.table_id == t && is_live s.status) w.sessions
                  (subst (λ k. has_live_session k w ≡ false) (ground arith) free) in
              rw (hs, same) (ground (arith, zero))
          | inr other ↦ rw (hs, same) (ground (arith, h t))
        ])
      (λ h s. rw hp (h s))
      (λ id s h. (s, rw hs (find?-append_one (λ r. r.id == id) w.sessions row s h), inl refl))
      (λ e h. rw he h) (Books-same w w' hb)

pub Keeps-insert_session :
    (branch_id table_id : ℕ) (token : String) (business_date visit : ℕ) (number : Reference)
    → Keeps (insert_session branch_id table_id token business_date visit number)
unfolding insert_session
Keeps-insert_session branch_id table_id token business_date visit number = keeps λ w.
    Good-if (has_live_session table_id w) _ _ (λ taken. Good-refl)
      (λ free. Good-append _ w _ refl refl refl (refl, refl, omega arith) free)

pub Keeps-create_participant :
    (session_id : ℕ) (name fingerprint : String) (host : Bool) (phone : List ℕ)
    → Keeps (create_participant session_id name fingerprint host phone)
unfolding create_participant
Keeps-create_participant session_id name fingerprint host phone =
    Keeps-same _ (λ w. refl) (λ w. refl) (λ w. refl) (λ w. (refl, refl, omega arith))
