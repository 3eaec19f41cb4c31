-- ===== src/Worker/Sweeps.antt =====
-- The passes of backend/internal/worker/worker.go over idle sessions: the reactivation pipeline, the
-- cleaner of stale sessions and the expiry warner, with their queries (workers.sql.go, sessions.sql.go).
-- Rows are kept in the order of their insertion, which is ORDER BY created_at.
use qr_dining.Base.{
  ℕ, ◌+◌, ◌-◌, ◌*◌, ⊤, Bool, true, false, ◌&&◌, not, Option, none, some, List, [], ◌∷◌, ◌==◌, ltb,
  leb, if◌then◌else◌, is_some,
}
use qr_dining.Base.Rows.{find?, select, exists, all, update_where}
use qr_dining.Domain.{active, awaiting_reactivation}
use qr_dining.Store.{
  World, Session, Participant, Branch, Op, Result, ok, err, attempt, pure, gets, when, if_found,
  emit, modify, ◌>>=◌, ◌>>◌, publish, log_event, presence_deleted_scoped, by_system, session_closed,
  session_expiring_soon, session_awaiting_reactivation, session_abandoned, ◌is◌, participants_of,
  is_open_for, transition_session_to_awaiting_reactivation,
}
use qr_dining.Presence.{get_present_for_session}
use qr_dining.Session.{abandon_stale_session}

-- ReactivationCandidate, AwaitingReactivationExpired and ExpiredSession, which have the same fields.
pub record Candidate : Type 0 where
  pub id : ℕ
  pub organization_id : ℕ
  pub branch_id : ℕ
  pub table_id : ℕ

-- JOIN branches b ON b.id = s.branch_id
abbrev pub joined : World → Session → List Candidate → List Candidate
joined w s rest = elim (find? (λ (b : Branch). b.id == s.branch_id) w.branches) [
  | none ↦ rest
  | some b ↦
      record {
        id = s.id;
        organization_id = b.organization_id;
        branch_id = s.branch_id;
        table_id = s.table_id;
      }
      ∷ rest
]

abbrev pub join_branches : World → List Session → List Candidate
join_branches w [] = []
join_branches w (s ∷ ss) = joined w s (join_branches w ss)

-- The inner join and HAVING MAX(sp.last_seen_at) < idle_before: there are participants, and all have
-- been silent.
abbrev pub all_idle : List Participant → ℕ → Bool
all_idle [] idle_before = false
all_idle (p ∷ ps) idle_before =
    ltb p.last_seen_at idle_before && all (λ (q : Participant). ltb q.last_seen_at idle_before) ps

unfoldable pub list_reactivation_candidates : ℕ → ℕ → World → List Candidate
list_reactivation_candidates created_before idle_before w = join_branches w (
    select
      (λ s.
        s.status is active
        && (ltb s.created_at created_before && all_idle (participants_of s.id w) idle_before))
      w.sessions)

abbrev pub waits_since_before : Option ℕ → ℕ → Bool
waits_since_before none t = false
waits_since_before (some since) t = ltb since t

abbrev pub insert_waiting : Session → List Session → List Session
insert_waiting s [] = s ∷ []
insert_waiting s (t ∷ ts) =
    let rest = t ∷ insert_waiting s ts in
    if earlier_or_equal s.awaiting_reactivation_at t.awaiting_reactivation_at
    then s ∷ t ∷ ts
    else rest
  where
    earlier_or_equal : Option ℕ → Option ℕ → Bool
    earlier_or_equal (some a) (some b) = leb a b
    earlier_or_equal _ _ = true

-- ORDER BY awaiting_reactivation_at ASC
abbrev pub by_waiting : List Session → List Session
by_waiting [] = []
by_waiting (s ∷ ss) = insert_waiting s (by_waiting ss)

unfoldable pub list_awaiting_reactivation_expired : ℕ → World → List Candidate
list_awaiting_reactivation_expired older_than w = join_branches w (
    by_waiting (
      select
        (λ s.
          s.status is awaiting_reactivation
          && waits_since_before s.awaiting_reactivation_at older_than)
        w.sessions))

unfoldable pub has_non_terminal_payment : ℕ → World → Bool
has_non_terminal_payment session_id w = exists (is_open_for session_id) w.payments

abbrev pub each : {A : Type 0} → (A → Op ⊤) → List A → Op ⊤
each f [] = pure tt
each f (x ∷ xs) = f x >> each f xs

abbrev is_empty : List (ℕ × ℕ) → Bool
is_empty [] = true
is_empty (_ ∷ _) = false

-- The move of one candidate to awaiting_reactivation. An unreadable presence hash leaves it alone.
unfoldable pub suspend : Candidate → Op ⊤
suspend c = do
  present ← gets (get_present_for_session c.organization_id c.branch_id c.id)
  pending ← gets (has_non_terminal_payment c.id)
  if_found present
      (λ seen. when (is_empty seen && not pending) do
        row ← transition_session_to_awaiting_reactivation c.id
        when row do
          emit (log_event c.id c.branch_id by_system 0 session_awaiting_reactivation)
          emit (publish c.id session_expiring_soon))
      (pure tt)

abbrev announce_abandoned : Candidate → Op ⊤
announce_abandoned c = do
  emit (publish c.id session_closed)
  emit (presence_deleted_scoped c.organization_id c.branch_id c.id)
  emit (log_event c.id c.branch_id by_system 0 session_abandoned)

abbrev pub after_abandon : Candidate → Result Bool → Op ⊤
after_abandon c (ok done) = when done (announce_abandoned c)
after_abandon c (err _) = pure tt

-- AbandonStaleSession with what is sent out if it abandons; an error is logged only.
unfoldable pub abandon : Candidate → Op ⊤
abandon c = attempt (abandon_stale_session c.id c.table_id) (after_abandon c)

-- A session with a payment under way is left to the staff.
unfoldable pub abandon_unpaid : Candidate → Op ⊤
abandon_unpaid c = do pending ← gets (has_non_terminal_payment c.id); when (not pending) (abandon c)

unfoldable pub run_reactivation_pipeline : ℕ → ℕ → ℕ → Op ⊤
run_reactivation_pipeline presence_grace session_idle_grace reactivation_window = do
  candidates ←
      gets λ w. list_reactivation_candidates (w.now - presence_grace) (w.now - session_idle_grace) w
  each suspend candidates
  expired ← gets (λ w. list_awaiting_reactivation_expired (w.now - reactivation_window) w)
  each abandon_unpaid expired

-- COALESCE(MAX(sp.last_seen_at), s.created_at)
abbrev latest_seen : List Participant → Option ℕ
latest_seen [] = none
latest_seen (p ∷ ps) = elim (latest_seen ps) [
  | none ↦ some p.last_seen_at
  | some t ↦ some (if ltb t p.last_seen_at then p.last_seen_at else t)
]

abbrev last_activity : World → Session → ℕ
last_activity w s = elim (latest_seen (participants_of s.id w)) [ none ↦ s.created_at | some t ↦ t ]

abbrev timeout_of : World → Session → Option ℕ
timeout_of w s = elim (find? (λ (b : Branch). b.id == s.branch_id) w.branches) [
  | none ↦ none
  | some b ↦ some (b.session_timeout_minutes * 60)
]

abbrev is_expired : World → Session → Bool
is_expired w s = elim (timeout_of w s) [
  | none ↦ false
  | some timeout ↦ s.status is active && ltb (last_activity w s + timeout) w.now
]

abbrev insert_activity : World → Session → List Session → List Session
insert_activity w s [] = s ∷ []
insert_activity w s (t ∷ ts) =
    let rest = t ∷ insert_activity w s ts in
    if leb (last_activity w s) (last_activity w t) then s ∷ t ∷ ts else rest

abbrev by_activity : World → List Session → List Session
by_activity w [] = []
by_activity w (s ∷ ss) = insert_activity w s (by_activity w ss)

unfoldable pub list_expired_sessions : World → List Candidate
list_expired_sessions w = join_branches w (by_activity w (select (is_expired w) w.sessions))

unfoldable pub clean_stale_sessions : Op ⊤
clean_stale_sessions = do sessions ← gets list_expired_sessions; each abandon sessions

-- The last activity and the timeout lie within the next 15 minutes, ends included.
abbrev expires_soon : World → Session → Bool
expires_soon w s = elim (timeout_of w s) [
  | none ↦ false
  | some timeout ↦
      (s.status is active && not (is_some s.warned_at))
      && (leb w.now (last_activity w s + timeout)
          && leb (last_activity w s + timeout) (w.now + 15 * 60))
]

unfoldable pub mark_session_warned : ℕ → Op ⊤
mark_session_warned id = modify λ w. record w {
  sessions =
      update_where (λ s. s.id == id && not (is_some s.warned_at))
        (λ s. record s { warned_at = some w.now }) w.sessions;
}

abbrev warn : Session → Op ⊤
warn s = emit (publish s.id session_expiring_soon) >> mark_session_warned s.id

unfoldable pub warn_expiring_sessions : Op ⊤
warn_expiring_sessions = do
  sessions ← gets (λ w. select (expires_soon w) w.sessions)
  each warn sessions
