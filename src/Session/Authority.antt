-- ===== src/Session/Authority.antt =====
-- Who may act as host (backend/internal/services/session.go, AuthorizeHostAction and TransferHost).
use qr_dining.Base.{
  ℕ, ◌+◌, ◌≤◌, List, ◌≡◌, refl, sym, subst, ◌≢◌, ◌⊎◌, true, false, Option, none, some, arith, ◌==◌,
  Option-cases, Bool-cases, inl, inr,
}
use qr_dining.Base.Rows.{find?, find?-update_where, find?-holds}
use qr_dining.Store.{
  World, Session, Participant, Organization, ok, get_session_by_id, get_participant_by_id,
  organization_of_branch,
}
use qr_dining.Presence.{seen_at, get_last_seen_for_session}
use qr_dining.Session.Absence.{Silent, HasHeartbeat, absent_host-Silent, present-HasHeartbeat}
use qr_dining.Session.{
  Config, is_id, is_present, authorize_host_action, promote_acting, reassign_host,
  host_absent_from_presence, present_participant_ids,
}

-- The row of a session.
abbrev pub session_row : ℕ → World → Option Session
session_row id w = find? (λ s. s.id == id) w.sessions

-- After the host role has been given away the session's row names the new host.
pub reassigned :
    (sess : Session) (target : Participant) (w : World) {row : Session}
    → session_row sess.id w ≡ some row
    → session_row sess.id (reassign_host sess target w).1
      ≡ some (record row { host_participant_id = some target.id })
unfolding reassign_host
reassigned sess target w {row} found =
    let updated =
      find?-update_where (λ (s : Session). s.id) (λ s. s.id == sess.id)
        (λ s. record s { host_participant_id = some target.id }) sess.id w.sessions (λ s. refl) in
    ground (arith, updated, find?-holds (λ (s : Session). s.id == sess.id) w.sessions found)

-- Why somebody may act as host: they are the host, or the session has no host or a silent one and they
-- are an unrevoked participant of it with a heartbeat that is not stale.
abbrev pub MayAct : Config → ℕ → ℕ → World → Type 0
MayAct cfg session_id acting_id w =
    (sess : Session) × (session_row session_id w ≡ some sess)
    × ((is_id sess.host_participant_id acting_id ≡ true)
        ⊎ (((sess.host_participant_id ≡ none) ⊎ Silent cfg sess w)
            × ((p : Participant) × (find? (λ q. q.id == acting_id) w.participants ≡ some p)
                × (p.session_id ≡ session_id)
                × (p.revoked_at ≡ none)
                × HasHeartbeat p.id sess w)))

module _ (cfg : Config) (session_id acting_id : ℕ) (w : World) where
  abbrev Authorized : Type 0
  Authorized = (authorize_host_action cfg session_id acting_id w).0 ≡ ok true

  -- A host action is authorized only for the host, or for an unrevoked participant of the session with a
  -- heartbeat in Redis that is not stale, where the session has no host or its host has been silent for
  -- longer than the grace. Heartbeats that cannot be read let nobody take over from a host.
  pub authorized-MayAct : Authorized → MayAct cfg session_id acting_id w
  unfolding authorize_host_action promote_acting get_session_by_id get_participant_by_id
  authorized-MayAct h = elim (Option-cases (session_row session_id w)) [
    | inl missing ↦ absurd (ground arith)
    | inr (sess, found) ↦ elim (Bool-cases (is_id sess.host_participant_id acting_id)) [
      | inl is_host ↦ (sess, found, inl is_host)
      | inr other ↦ elim (Option-cases (find? (λ q. q.id == acting_id) w.participants)) [
        | inl unknown ↦ absurd (ground arith)
        | inr (p, known) ↦
            let away : host_absent_from_presence cfg sess w ≡ true = ground arith in
            let here : is_present p.id (present_participant_ids sess w) ≡ true = ground arith in
            (
              sess,
              found,
              inr (
                absent_host-Silent cfg sess w away,
                (p, known, ground arith, ground arith, present-HasHeartbeat p.id sess w here),
              ),
            )
      ]
    ]
  ]

  -- Whoever is authorized is the host of the session afterwards.
  pub authorized_becomes_host :
      Authorized
      → (row : Session) × (session_row session_id
            (authorize_host_action cfg session_id acting_id w).1
          ≡ some row)
        × (is_id row.host_participant_id acting_id ≡ true)
  unfolding authorize_host_action promote_acting get_session_by_id get_participant_by_id
  authorized_becomes_host h = elim (Option-cases (session_row session_id w)) [
    | inl missing ↦ absurd (ground arith)
    | inr (sess, found) ↦ elim (Bool-cases (is_id sess.host_participant_id acting_id)) [
      | inl is_host ↦ (sess, ground arith, is_host)
      | inr other ↦ elim (Option-cases (find? (λ q. q.id == acting_id) w.participants)) [
        | inl unknown ↦ absurd (ground arith)
        | inr (p, known) ↦
            let here = find?-holds (λ (s : Session). s.id == session_id) w.sessions found in
            let me = find?-holds (λ (q : Participant). q.id == acting_id) w.participants known in
            let row : Session = record sess { host_participant_id = some p.id } in
            let same : sess.id ≡ session_id = ground arith in
            (
              row,
              ground (
                arith,
                reassigned sess p w {row = sess}
                    (subst (λ k. session_row k w ≡ some sess) (sym same) found),
              ),
              ground arith,
            )
      ]
    ]
  ]

  -- A refusal, or an error, changes nothing.
  pub unauthorized_changes_nothing :
      (authorize_host_action cfg session_id acting_id w).0 ≢ ok true
      → (authorize_host_action cfg session_id acting_id w).1 ≡ w
  unfolding authorize_host_action promote_acting get_session_by_id get_participant_by_id
      reassign_host
  unauthorized_changes_nothing h = ground arith

-- A host whose heartbeat in Redis lies within the grace keeps the role: nobody else is authorized, and
-- nothing changes.
pub host_within_grace_is_kept :
    (cfg : Config) (session_id acting_id : ℕ) (w : World) (sess : Session) (host : Participant)
    (org : Organization) (beats : List (ℕ × ℕ)) (seen : ℕ)
    → session_row session_id w ≡ some sess
    → sess.host_participant_id ≡ some host.id
    → host.id ≢ acting_id
    → find? (λ p. p.id == host.id) w.participants ≡ some host
    → organization_of_branch sess.branch_id w ≡ some org
    → get_last_seen_for_session org.id sess.branch_id sess.id w ≡ some beats
    → seen_at host.id beats ≡ some seen
    → w.now ≤ seen + cfg.host_absence_grace
    → authorize_host_action cfg session_id acting_id w ≡ (ok false, w)
unfolding authorize_host_action get_session_by_id host_absent_from_presence
host_within_grace_is_kept cfg session_id acting_id w sess host org beats seen a b c d e f g h =
    ground arith
