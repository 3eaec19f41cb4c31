-- ===== src/Session/Close.antt =====
-- How a session ends: CloseSession and closeSessionRecord of backend/internal/services/session.go,
-- AbandonStaleSession of backend/internal/repository/worker.go.
use qr_dining.Base.{ℕ, ⊤, Bool, true, false, ◌||◌, not, Option, none, some, ◌==◌, if◌then◌else◌}
use qr_dining.Domain.{active, awaiting_reactivation, not_session_host}
use qr_dining.Store.{
  Session, Actor, Op, pure, fail_if, emit, with_tx, ◌>>=◌, ◌>>◌, publish, log_event, session_closed,
  presence_deleted, presence_deleted_scoped, by_participant, TableStatus, get_session_by_id,
  organization_of_branch, close_session_if_active, update_table_status, revoke_all_participants,
  bump_all_participant_credential_versions, abandon_row, ◌is◌,
}
use qr_dining.Base.Rows.{find?}
use qr_dining.Session.Settings.{is_id}

-- The transaction of closeSessionRecord; `false` if the session was closed already.
unfoldable pub close_rows : Session → Op Bool
unfolding close_session_if_active update_table_status revoke_all_participants
    bump_all_participant_credential_versions
close_rows sess = do
  row ← close_session_if_active sess.id
  if not row then pure false else do
    update_table_status sess.table_id TableStatus.available
    revoke_all_participants sess.id "session_closed"
    bump_all_participant_credential_versions sess.id
    pure true

abbrev pub forget_presence : Session → Op ⊤
forget_presence sess w = elim (organization_of_branch sess.branch_id w) [
  | some org ↦ emit (presence_deleted_scoped org.id sess.branch_id sess.id) w
  | none ↦ emit (presence_deleted sess.id) w
]

abbrev announce_close : Session → Actor → ℕ → Op ⊤
announce_close sess actor actor_id = do
  forget_presence sess
  emit (publish sess.id session_closed)
  emit (log_event sess.id sess.branch_id actor actor_id session_closed)

unfoldable pub close_session_record : Session → Actor → ℕ → Op Bool
close_session_record sess actor actor_id = do
  done ← with_tx (close_rows sess)
  if done then announce_close sess actor actor_id >> pure true else pure false

abbrev id_or_zero : Option ℕ → ℕ
id_or_zero none = 0
id_or_zero (some id) = id

-- Whether a given requester is not the host; the system has no requester.
abbrev not_host : Session → Option ℕ → Bool
not_host sess none = false
not_host sess (some requester) = not (is_id sess.host_participant_id requester)

unfoldable pub close_session : ℕ → Option ℕ → Op ⊤
unfolding close_session_record
close_session id requester = do
  sess ← get_session_by_id id
  fail_if (not_host sess requester) not_session_host
  close_session_record sess by_participant (id_or_zero requester)
  pure tt

-- The rows that the repository's AbandonStaleSession changes once its checks have passed.
unfoldable pub abandon_rows : Session → Op Bool
unfolding abandon_row update_table_status revoke_all_participants
    bump_all_participant_credential_versions
abandon_rows sess = do
  abandon_row sess.id
  update_table_status sess.table_id TableStatus.available
  revoke_all_participants sess.id "session_abandoned"
  bump_all_participant_credential_versions sess.id
  pure true

-- `true` if the session was abandoned; a missing row or another table is no error.
unfoldable pub abandon_stale_session : ℕ → ℕ → Op Bool
unfolding abandon_rows
abandon_stale_session id table_id w = elim (find? (λ s. s.id == id) w.sessions) [
  | none ↦ pure false w
  | some sess ↦
      if not (sess.table_id == table_id)
        || not (sess.status is active || sess.status is awaiting_reactivation)
      then pure false w
      else with_tx (abandon_rows sess) w
]
