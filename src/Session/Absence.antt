-- ===== src/Session/Absence.antt =====
-- When the host counts as absent and somebody else as present (hostAbsentFromPresence and
-- presentParticipantIDs of backend/internal/services/session.go), by the rows and the heartbeats.
use qr_dining.Base.{
  ℕ, ◌+◌, ◌≤◌, ◌<◌, ◌≡◌, subst, ap, ◌∙◌, ◌⊎◌, true, none, some, arith, ◌==◌, Option-cases, inl, inr,
}
use qr_dining.Base.Rows.{find?, find?-holds}
use qr_dining.Store.{World, Session, Participant, Organization, organization_of_branch}
use qr_dining.Presence.{
  LastSeen, presence_stale_after, seen_at, get_last_seen_for_session, get_present_for_session,
}
use qr_dining.Presence.Recent.{present_is_recent}
use qr_dining.Session.{
  Config, is_present, presence_db_sync_interval, host_absent_from_presence, present_participant_ids,
}

-- The session has a host who has been silent for longer than the grace: by the row and by the
-- heartbeat in Redis, or, where Redis has none, for longer by the interval at which it is written to the
-- row. The heartbeats could be read.
abbrev pub Silent : Config → Session → World → Type 0
Silent cfg sess w =
    (host : Participant) × (org : Organization) × (beats : LastSeen) × (sess.host_participant_id
      ≡ some host.id)
    × (find? (λ p. p.id == host.id) w.participants ≡ some host)
    × (organization_of_branch sess.branch_id w ≡ some org)
    × (get_last_seen_for_session org.id sess.branch_id sess.id w ≡ some beats)
    × (host.last_seen_at + cfg.host_absence_grace < w.now)
    × ((seen : ℕ) → seen_at host.id beats ≡ some seen → seen + cfg.host_absence_grace < w.now)
    × (seen_at host.id beats ≡ none
        → host.last_seen_at + cfg.host_absence_grace + presence_db_sync_interval < w.now)

-- The participant has sent a heartbeat that is not stale.
abbrev pub HasHeartbeat : ℕ → Session → World → Type 0
HasHeartbeat id sess w =
    (org : Organization) × (present : LastSeen) × (seen : ℕ) × (organization_of_branch
        sess.branch_id w
      ≡ some org)
    × (get_present_for_session org.id sess.branch_id sess.id w ≡ some present)
    × (seen_at id present ≡ some seen)
    × (w.now ≤ seen + presence_stale_after)

pub absent_host-Silent :
    (cfg : Config) (sess : Session) (w : World)
    → host_absent_from_presence cfg sess w ≡ true
    → (sess.host_participant_id ≡ none) ⊎ Silent cfg sess w
unfolding host_absent_from_presence
absent_host-Silent cfg sess w h = elim (Option-cases sess.host_participant_id) [
  | inl none_ ↦ inl none_
  | inr (host_id, given) ↦
      elim (Option-cases (find? (λ (p : Participant). p.id == host_id) w.participants)) [
        | inl gone ↦ absurd (ground arith)
        | inr (host, found) ↦ elim (Option-cases (organization_of_branch sess.branch_id w)) [
          | inl gone ↦ absurd (ground arith)
          | inr (org, owner) ↦
              elim (Option-cases (get_last_seen_for_session org.id sess.branch_id sess.id w)) [
                | inl unread ↦ absurd (ground arith)
                | inr (beats, read) ↦
                    let me =
                      find?-holds (λ (p : Participant). p.id == host_id) w.participants found in
                    let same : host_id ≡ host.id = ground arith in
                    inr (
                      host,
                      org,
                      beats,
                      given ∙ ap some same,
                      subst (λ k. find? (λ (p : Participant). p.id == k) w.participants ≡ some host)
                          same found,
                      owner,
                      read,
                      ground arith,
                      (λ seen e. ground arith),
                      (λ e. ground arith),
                    )
              ]
        ]
      ]
]

pub present-HasHeartbeat :
    (id : ℕ) (sess : Session) (w : World)
    → is_present id (present_participant_ids sess w) ≡ true
    → HasHeartbeat id sess w
unfolding present_participant_ids
present-HasHeartbeat id sess w h = elim (Option-cases (organization_of_branch sess.branch_id w)) [
  | inl gone ↦ absurd (ground arith)
  | inr (org, owner) ↦
      elim (Option-cases (get_present_for_session org.id sess.branch_id sess.id w)) [
        | inl unread ↦ absurd (ground arith)
        | inr (present, read) ↦ elim (Option-cases (seen_at id present)) [
          | inl unseen ↦ absurd (ground arith)
          | inr (seen, e) ↦ (
            org,
            present,
            seen,
            owner,
            read,
            e,
            present_is_recent org.id sess.branch_id sess.id id seen present w read e,
          )
        ]
      ]
]
