-- ===== src/Session/Host.antt =====
-- The host of a session (backend/internal/services/session.go): who may act as host, and when the
-- role moves to somebody else.
use qr_dining.Base.{
  ℕ, ◌+◌, ◌-◌, ⊤, Bool, true, false, ◌&&◌, ◌||◌, not, Option, none, some, List, map, ◌==◌, ltb,
  is_some, if◌then◌else◌,
}
use qr_dining.Base.Rows.{find?, exists}
use qr_dining.Domain.{
  payment_pending, not_session_host, host_transfer_during_payment, participant_not_in_session,
  participant_unauthorized,
}
use qr_dining.Store.{
  World, Session, Participant, Op, pure, fail_if, gets, emit, with_tx, ◌>>=◌, ◌>>◌, publish,
  log_event, host_changed, by_system, get_session_by_id, get_participant_by_id,
  organization_of_branch, set_participant_host_flags, set_session_host, ◌is◌, Heartbeats,
}
use qr_dining.Presence.{LastSeen, seen_at, get_last_seen_for_session, get_present_for_session}
use qr_dining.Session.Settings.{Config, is_id}

abbrev pub presence_db_sync_interval : ℕ
presence_db_sync_interval = 120

-- The newest heartbeat in Redis, or the row's where that is later.
abbrev latest_heartbeat : ℕ → Option ℕ → ℕ
latest_heartbeat stored none = stored
latest_heartbeat stored (some seen) = if ltb stored seen then seen else stored

abbrev grace_for : Config → Option ℕ → ℕ
grace_for cfg none = cfg.host_absence_grace + presence_db_sync_interval
grace_for cfg (some _) = cfg.host_absence_grace

abbrev host_absent : Config → Participant → Heartbeats → ℕ → Bool
host_absent cfg host none now = false
host_absent cfg host (some last_seen) now =
    let seen : Option ℕ = seen_at host.id last_seen in
    ltb (grace_for cfg seen) (now - latest_heartbeat host.last_seen_at seen)

-- A missing row or reply counts as present.
unfoldable pub host_absent_from_presence : Config → Session → World → Bool
host_absent_from_presence cfg sess w = elim sess.host_participant_id [
  | none ↦ true
  | some host_id ↦ elim (find? (λ p. p.id == host_id) w.participants) [
    | none ↦ false
    | some host ↦ elim (organization_of_branch sess.branch_id w) [
      | none ↦ false
      | some org ↦
          host_absent cfg host (get_last_seen_for_session org.id sess.branch_id sess.id w) w.now
    ]
  ]
]

-- `none` where presence cannot be determined.
unfoldable pub present_participant_ids : Session → World → Heartbeats
present_participant_ids sess w = elim (organization_of_branch sess.branch_id w) [
  | none ↦ none
  | some org ↦ get_present_for_session org.id sess.branch_id sess.id w
]

-- `_, ok := present[id]`, false where presence is unknown.
abbrev pub is_present : ℕ → Heartbeats → Bool
is_present id none = false
is_present id (some present) = is_some (seen_at id present)

-- Repos.ReassignHost, then the broadcast and the log row.
unfoldable pub reassign_host : Session → Participant → Op ⊤
unfolding set_participant_host_flags set_session_host
reassign_host sess new_host = do
  with_tx (set_participant_host_flags sess.id new_host.id >> set_session_host sess.id new_host.id)
  let promoted : Participant = record new_host { is_host = true }
  emit (publish sess.id (host_changed promoted))
  emit (log_event sess.id sess.branch_id by_system new_host.id (host_changed promoted))

-- The part of AuthorizeHostAction behind the absence test.
unfoldable pub promote_acting : Session → Participant → Op Bool
promote_acting sess acting = do
  present ← gets (present_participant_ids sess)
  if is_present acting.id present then reassign_host sess acting >> pure true else pure false

unfoldable pub authorize_host_action : Config → ℕ → ℕ → Op Bool
authorize_host_action cfg session_id acting_id = do
  sess ← get_session_by_id session_id
  if is_id sess.host_participant_id acting_id then pure true else do
    absent ← gets (host_absent_from_presence cfg sess)
    if not absent then pure false else do
      acting ← get_participant_by_id acting_id
      if not (acting.session_id == session_id) || is_some acting.revoked_at
          then pure false
          else promote_acting sess acting

unfoldable pub transfer_host : ℕ → ℕ → ℕ → Op ⊤
transfer_host session_id acting_id target_id = do
  sess ← get_session_by_id session_id
  fail_if (not (is_id sess.host_participant_id acting_id)) not_session_host
  fail_if (sess.status is payment_pending) host_transfer_during_payment
  if target_id == acting_id then pure tt else do
    target ← get_participant_by_id target_id
    fail_if (not (target.session_id == session_id) || is_some target.revoked_at)
        participant_not_in_session
    present ← gets (present_participant_ids sess)
    fail_if (not (is_present target.id present)) participant_unauthorized
    reassign_host sess target

unfoldable pub has_other_present_active : List Participant → ℕ → LastSeen → Bool
has_other_present_active ps host_id present =
    exists (λ p. not (is_some p.revoked_at || p.id == host_id) && is_some (seen_at p.id present)) ps

unfoldable pub pick_new_host : List Participant → Option ℕ → LastSeen → Option Participant
pick_new_host ps current present =
    find? (λ p. not (is_some p.revoked_at || is_id current p.id) && is_some (seen_at p.id present))
      ps

-- Whether the row itself shows that the host is gone: unset, not in the list, or revoked.
abbrev host_gone : Option ℕ → List Participant → Bool
host_gone none ps = true
host_gone (some host_id) ps = elim (find? (λ p. p.id == host_id) ps) [
  | none ↦ true
  | some host ↦ is_some host.revoked_at
]

-- The presence by which a successor is chosen; `none` where the host stays.
abbrev pub successor_presence : Config → Session → List Participant → World → Heartbeats
successor_presence cfg sess ps w =
    if host_gone sess.host_participant_id ps
    then present_participant_ids sess w
    else if host_absent_from_presence cfg sess w
    then elim (present_participant_ids sess w) [
      | none ↦ none
      | some present ↦ elim sess.host_participant_id [
        | none ↦ none
        | some host_id ↦ if has_other_present_active ps host_id present then some present else none
      ]
    ]
    else none

-- The returned copies, as the caller will show them.
abbrev pub with_host : ℕ → Session → List Participant → Session × List Participant
with_host id sess ps = (
  record sess { host_participant_id = some id },
  map {A = Participant} (λ p. record p { is_host = p.id == id }) ps,
)

unfoldable pub ensure_host_baseline :
    Config → Session → List Participant → Op (Session × List Participant)
ensure_host_baseline cfg sess ps w = elim (successor_presence cfg sess ps w) [
  | none ↦ pure (sess, ps) w
  | some present ↦ elim (pick_new_host ps sess.host_participant_id present) [
    | none ↦ pure (sess, ps) w
    | some new_host ↦
        if is_id sess.host_participant_id new_host.id
        then pure (sess, ps) w
        else (reassign_host sess new_host >> pure (with_host new_host.id sess ps)) w
  ]
]
