-- ===== src/Session/Entry.antt =====
-- How guests enter and resume a session: CreateSession, JoinSession and Reactivate of
-- backend/internal/services/session.go. The random token of crypto.GenerateToken is an argument.
use Prim.Native.String.{String}
use qr_dining.Base.{ℕ, ⊤, true, false, none, List}
use qr_dining.Domain.{active, payment_pending, awaiting_reactivation, session_closed, invalid_phone}
use qr_dining.Store.{
  Session, Participant, Reference, Op, pure, fail, gets, or_fail, emit, with_tx, fail_if, ◌>>=◌,
  ◌>>◌, publish, log_event, session_created, participant_joined, session_reactivated,
  by_participant, TableStatus, get_session_by_id, get_table_by_id, get_branch_by_id,
  next_session_number, insert_session, create_participant, set_session_host, update_table_status,
  reactivate_session,
}
use qr_dining.Phone.{normalize_optional_phone}
use qr_dining.Tenant.{ensure_branch_admits_guests}
use qr_dining.Session.Settings.{Config, credential_safe_session}
use qr_dining.Base.{not}

-- The transaction of CreateSession.
unfoldable pub open_session :
    Config → ℕ → ℕ → String → String → List ℕ → String → Op (Session × Participant)
unfolding next_session_number insert_session create_participant set_session_host update_table_status
open_session cfg table_id branch_id name fingerprint phone token = do
  branch ← get_branch_by_id branch_id
  local_date ← gets (λ w. cfg.local_date branch.timezone w.now)
  visit ← next_session_number branch_id local_date
  let number : Reference = record {
    branch_code = branch.branch_code;
    local_date = local_date;
    sequence = visit;
  }
  sess ← insert_session branch_id table_id token local_date visit number
  participant ← create_participant sess.id name fingerprint true phone
  set_session_host sess.id participant.id
  update_table_status table_id TableStatus.occupied
  pure (sess, participant)

-- What CreateSession broadcasts and logs: never the raw row, which holds the credential.
unfoldable pub announce_session : Session × Participant → Op ⊤
unfolding credential_safe_session
announce_session (sess, participant) = do
  let event = session_created (credential_safe_session sess) participant
  emit (publish sess.id event)
  emit (log_event sess.id sess.branch_id by_participant participant.id event)

unfoldable pub create_session :
    Config → ℕ → String → String → List ℕ → String → Op (Session × Participant)
create_session cfg table_id name fingerprint raw_phone token = do
  table ← get_table_by_id table_id
  ensure_branch_admits_guests table.branch_id
  phone ← or_fail (normalize_optional_phone raw_phone) invalid_phone
  result ← with_tx (open_session cfg table_id table.branch_id name fingerprint phone token)
  announce_session result
  pure result

-- The switch of JoinSession on the status that was read.
unfoldable pub resume_for_join : Session → Op ⊤
unfolding reactivate_session
resume_for_join sess = elim sess.status [
  | active ↦ pure tt
  | payment_pending ↦ pure tt
  | awaiting_reactivation ↦ do
    back ← reactivate_session sess.id
    fail_if (not back) session_closed
    emit (publish sess.id session_reactivated)
    emit (log_event sess.id sess.branch_id by_participant 0 session_reactivated)
  | _ ↦ fail session_closed
]

unfoldable pub join_session : ℕ → String → String → List ℕ → Op Participant
unfolding resume_for_join
join_session session_id name fingerprint raw_phone = do
  sess ← get_session_by_id session_id
  ensure_branch_admits_guests sess.branch_id
  resume_for_join sess
  phone ← or_fail (normalize_optional_phone raw_phone) invalid_phone
  participant ← create_participant session_id name fingerprint false phone
  emit (publish session_id (participant_joined participant))
  emit (
      log_event session_id sess.branch_id by_participant participant.id
        (participant_joined participant))
  pure participant

-- The switch of Reactivate on the status that was read.
unfoldable pub reactivate_row : Session → Op Session
unfolding reactivate_session
reactivate_row sess = elim sess.status [
  | active ↦ pure sess
  | awaiting_reactivation ↦ do
    back ← reactivate_session sess.id
    fail_if (not back) session_closed
    emit (publish sess.id session_reactivated)
    emit (log_event sess.id sess.branch_id by_participant 0 session_reactivated)
    pure (record sess { status = active; awaiting_reactivation_at = none })
  | _ ↦ fail session_closed
]

unfoldable pub reactivate : ℕ → Op Session
unfolding reactivate_row
reactivate session_id = do sess ← get_session_by_id session_id; reactivate_row sess
