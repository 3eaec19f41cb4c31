-- ===== src/Session/Closing.antt =====
-- What closeSessionRecord does, on both branches (backend/internal/services/session.go).
use Prim.Native.String.{String}
use qr_dining.Base.{
  Bool, ℕ, ◌+◌, ◌≡◌, refl, ap, ◌∙◌, ◌≢◌, true, false, ◌&&◌, Option, none, some, ◌∷◌, List, [],
  arith, ◌==◌, is_some, inl, inr, Option-cases, Bool-cases, not,
}
use qr_dining.Base.Rows.{
  exists, choose, update_where, update_where-none, update_where-Pairwise, Pairwise,
}
use qr_dining.Domain.{closed}
use qr_dining.Store.{
  World, Session, Participant, DiningTable, Organization, Actor, Effect, TableStatus, ok, is_live,
  log_event, publish, session_closed, presence_deleted, presence_deleted_scoped,
  organization_of_branch,
}
use qr_dining.Session.{close_rows, close_session_record}

-- Whether the session's row still is live.
abbrev pub has_live_row : Session → World → Bool
has_live_row sess w = exists (λ s. s.id == sess.id && is_live s.status) w.sessions

-- A session that is over already is left exactly as it is, and nothing is announced.
pub close_session_record_again :
    (sess : Session) (actor : Actor) (actor_id : ℕ) (w : World)
    → has_live_row sess w ≡ false
    → close_session_record sess actor actor_id w ≡ (ok false, w)
unfolding close_session_record close_rows
close_session_record_again sess actor actor_id w h =
    let kept =
      update_where-none (λ (s : Session). s.id == sess.id && is_live s.status)
        (λ s. record s { status = closed; closed_at = some w.now }) w.sessions h in
    ground (arith, kept)

-- The update that closes leaves no live row of the session.
no_live_row :
    (id now : ℕ) (rows : List Session)
    → exists
        (λ (s : Session). s.id == id && is_live s.status)
        (update_where
          (λ (s : Session). s.id == id && is_live s.status)
          (λ s. record s { status = closed; closed_at = some now })
          rows)
      ≡ false
no_live_row id now [] = refl
no_live_row id now (s ∷ rows) = ground (arith, no_live_row id now rows)

-- A live row of the session is closed now; every other row stays.
abbrev pub ClosedNow : ℕ → ℕ → Session → Session → Type 0
ClosedNow id now old new =
    new
    ≡ choose (old.id == id && is_live old.status)
        (record old { status = closed; closed_at = some now }) old

-- The table of the session is free; every other table stays.
abbrev pub FreedTable : ℕ → DiningTable → DiningTable → Type 0
FreedTable id old new =
    new ≡ choose (old.id == id) (record old { status = TableStatus.available }) old

-- Whoever belongs to the session is revoked and has a new credential version; every other row stays.
abbrev pub LockedOutOf : ℕ → Participant → Participant → Type 0
LockedOutOf session_id old new =
    (old.session_id ≡ session_id
      → (new.session_id ≡ session_id)
        × (new.revoked_at ≢ none)
        × (new.credential_version ≡ old.credential_version + 1))
    × (old.session_id ≢ session_id → new ≡ old)

pub locked_out :
    (session_id now : ℕ) (reason : Option String) (ps : List Participant)
    → Pairwise (LockedOutOf session_id) ps (
        update_where
          (λ p. p.session_id == session_id)
          (λ p. record p { credential_version = p.credential_version + 1 })
          (update_where
            (λ p. p.session_id == session_id && not (is_some p.revoked_at))
            (λ p. record p { revoked_at = some now; revoked_reason = reason })
            ps))
locked_out session_id now reason [] = tt
locked_out session_id now reason (p ∷ ps) =
    ((λ e. ground arith, λ e. ground arith), locked_out session_id now reason ps)

-- The rows after a close, and what is announced of it.
abbrev pub after_close : Session → World → World
after_close sess w = record w {
  sessions =
      update_where (λ s. s.id == sess.id && is_live s.status)
        (λ s. record s { status = closed; closed_at = some w.now }) w.sessions;
  tables =
      update_where (λ t. t.id == sess.table_id) (λ t. record t { status = TableStatus.available })
        w.tables;
  participants =
      update_where (λ p. p.session_id == sess.id)
        (λ p. record p { credential_version = p.credential_version + 1 })
        (update_where (λ p. p.session_id == sess.id && not (is_some p.revoked_at))
          (λ p. record p { revoked_at = some w.now; revoked_reason = some "session_closed" })
          w.participants);
}

abbrev presence_cleared : Session → Option Organization → Effect
presence_cleared sess none = presence_deleted sess.id
presence_cleared sess (some org) = presence_deleted_scoped org.id sess.branch_id sess.id

abbrev pub close_announcements : Session → Actor → ℕ → World → List Effect
close_announcements sess actor actor_id w =
    log_event sess.id sess.branch_id actor actor_id session_closed
    ∷ publish sess.id session_closed
    ∷ presence_cleared sess (organization_of_branch sess.branch_id w)
    ∷ w.effects

-- Closing a live session writes these rows and announces the close once.
pub close_session_record_lem :
    (sess : Session) (actor : Actor) (actor_id : ℕ) (w : World)
    → has_live_row sess w ≡ true
    → close_session_record sess actor actor_id w ≡ (
      ok true,
      record (after_close sess w) { effects = close_announcements sess actor actor_id w },
    )
unfolding close_session_record close_rows
close_session_record_lem sess actor actor_id w h =
    elim (Option-cases (organization_of_branch sess.branch_id w)) [
      | inl missing ↦ ground arith
      | inr (org, found) ↦ ground arith
    ]

-- Closing a live session closes its row, frees its table, and revokes and rotates the credential of
-- each of its participants, touching no row of anybody else.
pub close_session_record_closes :
    (sess : Session) (actor : Actor) (actor_id : ℕ) (w : World)
    → has_live_row sess w ≡ true
    → let (result, w') = close_session_record sess actor actor_id w in
      (result ≡ ok true)
      × Pairwise (ClosedNow sess.id w.now) w.sessions w'.sessions
      × Pairwise (FreedTable sess.table_id) w.tables w'.tables
      × Pairwise (LockedOutOf sess.id) w.participants w'.participants
close_session_record_closes sess actor actor_id w h =
    rw (close_session_record_lem sess actor actor_id w h) (
      refl,
      update_where-Pairwise (ClosedNow sess.id w.now) (λ s. s.id == sess.id && is_live s.status)
          (λ s. record s { status = closed; closed_at = some w.now }) (λ s. refl) w.sessions,
      update_where-Pairwise (FreedTable sess.table_id) (λ t. t.id == sess.table_id)
          (λ t. record t { status = TableStatus.available }) (λ t. refl) w.tables,
      locked_out sess.id w.now (some "session_closed") w.participants,
    )

closed_rows :
    (sess : Session) (actor : Actor) (actor_id : ℕ) (w : World)
    → has_live_row sess (close_session_record sess actor actor_id w).1 ≡ false
closed_rows sess actor actor_id w = elim (Bool-cases (has_live_row sess w)) [
  | inl live ↦
      rw (close_session_record_lem sess actor actor_id w live)
        (no_live_row sess.id w.now w.sessions)
  | inr over ↦ rw (close_session_record_again sess actor actor_id w over) over
]

-- However a session is found, closing it a second time does nothing: whoever sends the second call, on
-- whatever copy of the row, it reports that nothing was closed, and it frees no table, revokes no
-- credential, rotates no version and announces nothing again.
pub closed_once :
    (sess copy : Session) (actor actor' : Actor) (actor_id actor_id' : ℕ) (w : World)
    → copy.id ≡ sess.id
    → let w' = (close_session_record sess actor actor_id w).1 in
      close_session_record copy actor' actor_id' w' ≡ (ok false, w')
closed_once sess copy actor actor' actor_id actor_id' w same =
    let w' = (close_session_record sess actor actor_id w).1 in
    close_session_record_again copy actor' actor_id' w' (
      ap (λ k. exists (λ (s : Session). s.id == k && is_live s.status) w'.sessions) same
      ∙ closed_rows sess actor actor_id w)
