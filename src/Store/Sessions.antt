-- ===== src/Store/Sessions.antt =====
-- The queries on sessions, tables and participants: backend/internal/repository with the SQL text of
-- backend/internal/db/sqlc. An UPDATE … RETURNING gives `true` where it returns a row, and `false`
-- for pgx.ErrNoRows.
use Prim.Native.String.{String}
use qr_dining.Base.{
  ℕ, ◌+◌, ⊤, Bool, true, false, ◌&&◌, ◌||◌, Option, none, some, List, [], ◌∷◌, ◌++◌, ◌==◌,
  if◌then◌else◌, is_some, not,
}
use qr_dining.Base.Rows.{find?, update_where, select, exists}
use qr_dining.Domain.{
  SessionStatus, active, payment_pending, awaiting_reactivation, closed, abandoned,
  session_not_found, participant_not_found, session_already_active, table_not_found, no_rows,
  SessionStatus-comparable,
}
use qr_dining.Store.Model.{
  World, Session, Participant, TableStatus, Reference, DiningTable, Branch, Organization,
}
use qr_dining.Store.Monad.{Op, ok, err, or_fail, modify}

-- status IN ('active', 'payment_pending', 'awaiting_reactivation')
abbrev pub is_live : SessionStatus → Bool
is_live active = true
is_live payment_pending = true
is_live awaiting_reactivation = true
is_live _ = false

infix 50 ◌is◌
abbrev pub ◌is◌ : SessionStatus → SessionStatus → Bool
s is t = SessionStatus-comparable.eq s t

unfoldable pub get_session_by_id : ℕ → Op Session
get_session_by_id id w = or_fail (find? (λ s. s.id == id) w.sessions) session_not_found w

unfoldable pub get_participant_by_id : ℕ → Op Participant
get_participant_by_id id w =
    or_fail (find? (λ p. p.id == id) w.participants) participant_not_found w

unfoldable pub get_table_by_id : ℕ → Op DiningTable
get_table_by_id id w = or_fail (find? (λ t. t.id == id) w.tables) table_not_found w

unfoldable pub get_branch_by_id : ℕ → Op Branch
get_branch_by_id id w = or_fail (find? (λ b. b.id == id) w.branches) no_rows w

unfoldable pub get_organization_by_id : ℕ → Op Organization
get_organization_by_id id w = or_fail (find? (λ o. o.id == id) w.organizations) no_rows w

-- GetOrganizationByBranchID joins the two tables.
abbrev pub organization_of_branch : ℕ → World → Option Organization
organization_of_branch branch_id w = elim (find? (λ b. b.id == branch_id) w.branches) [
  | none ↦ none
  | some b ↦ find? (λ o. o.id == b.organization_id) w.organizations
]

-- ORDER BY joined_at ASC: the rows are kept in the order of their insertion.
abbrev pub participants_of : ℕ → World → List Participant
participants_of session_id w = select (λ p. p.session_id == session_id) w.participants

-- UPDATE sessions SET … WHERE id = $1 AND status … RETURNING id
abbrev pub update_session : ℕ → (SessionStatus → Bool) → (Session → Session) → Op Bool
update_session id from set w =
    let p : Session → Bool = λ s. s.id == id && from s.status in
    (ok (exists p w.sessions), record w { sessions = update_where p set w.sessions })

unfoldable pub close_session_if_active : ℕ → Op Bool
close_session_if_active id w =
    update_session id is_live (λ s. record s { status = closed; closed_at = some w.now }) w

unfoldable pub transition_session_to_payment_pending : ℕ → Op Bool
transition_session_to_payment_pending id =
    update_session id (λ t. t is active) (λ s. record s { status = payment_pending })

unfoldable pub transition_session_to_active : ℕ → Op Bool
transition_session_to_active id =
    update_session id (λ t. t is payment_pending) (λ s. record s { status = active })

unfoldable pub transition_session_to_awaiting_reactivation : ℕ → Op Bool
transition_session_to_awaiting_reactivation id w =
    update_session id (λ t. t is active)
      (λ s. record s { status = awaiting_reactivation; awaiting_reactivation_at = some w.now }) w

unfoldable pub reactivate_session : ℕ → Op Bool
reactivate_session id =
    update_session id (λ t. t is awaiting_reactivation)
      λ s. record s { status = active; awaiting_reactivation_at = none; warned_at = none }

-- The query AbandonStaleSession, inside the repository's transaction of that name.
unfoldable pub abandon_row : ℕ → Op Bool
abandon_row id w =
    update_session id (λ t. t is active || t is awaiting_reactivation)
      (λ s. record s { status = abandoned; closed_at = some w.now }) w

unfoldable pub set_session_host : ℕ → ℕ → Op ⊤
set_session_host id participant_id = modify λ w. record w {
  sessions =
      update_where (λ s. s.id == id) (λ s. record s { host_participant_id = some participant_id })
        w.sessions;
}

unfoldable pub update_table_status : ℕ → TableStatus → Op ⊤
update_table_status id status = modify λ w. record w {
  tables = update_where (λ t. t.id == id) (λ t. record t { status = status }) w.tables;
}

unfoldable pub revoke_all_participants : ℕ → String → Op ⊤
revoke_all_participants session_id reason = modify λ w. record w {
  participants =
      update_where (λ p. p.session_id == session_id && not (is_some p.revoked_at))
        (λ p. record p { revoked_at = some w.now; revoked_reason = some reason }) w.participants;
}

unfoldable pub bump_all_participant_credential_versions : ℕ → Op ⊤
bump_all_participant_credential_versions session_id = modify λ w. record w {
  participants =
      update_where (λ p. p.session_id == session_id)
        (λ p. record p { credential_version = p.credential_version + 1 }) w.participants;
}

unfoldable pub set_participant_host_flags : ℕ → ℕ → Op ⊤
set_participant_host_flags session_id host = modify λ w. record w {
  participants =
      update_where (λ p. p.session_id == session_id) (λ p. record p { is_host = p.id == host })
        w.participants;
}

-- The unique index idx_sessions_one_active_per_table refuses a second live session on a table.
abbrev pub has_live_session : ℕ → World → Bool
has_live_session table_id w = exists (λ s. s.table_id == table_id && is_live s.status) w.sessions

unfoldable pub insert_session : ℕ → ℕ → String → ℕ → ℕ → Reference → Op Session
insert_session branch_id table_id token business_date visit number w =
    let row : Session = record {
      id = w.next_id;
      branch_id = branch_id;
      table_id = table_id;
      session_token = token;
      status = active;
      host_participant_id = none;
      customer_id = none;
      created_at = w.now;
      closed_at = none;
      awaiting_reactivation_at = none;
      warned_at = none;
      business_date = business_date;
      visit_number = visit;
      session_number = number;
    } in
    if has_live_session table_id w
    then (err session_already_active, w)
    else (ok row, record w { sessions = w.sessions ++ row ∷ []; next_id = w.next_id + 1 })

unfoldable pub create_participant : ℕ → String → String → Bool → List ℕ → Op Participant
create_participant session_id name fingerprint host phone w =
    let row : Participant = record {
      id = w.next_id;
      session_id = session_id;
      display_name = name;
      device_fingerprint = fingerprint;
      is_host = host;
      phone = phone;
      joined_at = w.now;
      last_seen_at = w.now;
      credential_version = 1;
      revoked_at = none;
      revoked_reason = none;
    } in
    (ok row, record w { participants = w.participants ++ row ∷ []; next_id = w.next_id + 1 })

-- INSERT … ON CONFLICT DO UPDATE SET last_seq = last_seq + 1 RETURNING last_seq, on the rows
-- (branch, date, last_seq); `start` is the value of a new row.
abbrev pub next_in_sequence : ℕ → ℕ → ℕ → List (ℕ × ℕ × ℕ) → ℕ × List (ℕ × ℕ × ℕ)
next_in_sequence start branch date [] = (start, (branch, date, start) ∷ [])
next_in_sequence start branch date ((b, d, last) ∷ rows) =
    let (seq, rest) = next_in_sequence start branch date rows in
    if b == branch && d == date
    then (last + 1, (b, d, last + 1) ∷ rows)
    else (seq, (b, d, last) ∷ rest)

unfoldable pub next_session_number : ℕ → ℕ → Op ℕ
next_session_number branch date w =
    let (seq, rows) = next_in_sequence 1 branch date w.session_sequences in
    (ok seq, record w { session_sequences = rows })
