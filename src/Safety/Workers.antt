-- ===== src/Safety/Workers.antt =====
-- The passes of the workers keep the rules (backend/internal/worker/worker.go).
use qr_dining.Base.{
  ℕ, zero, suc, ◌≡◌, refl, ⊤, Bool, true, ◌&&◌, not, List, [], ◌∷◌, ◌==◌, some, arith, is_some,
  Bool-cases, inl, inr,
}
use qr_dining.Base.Rows.{count-update_where, find?-update_where, update_where}
use qr_dining.Domain.{abandoned, validate_session_transition}
use qr_dining.Store.{World, Session, Op, Result, ok, err, is_live}
use qr_dining.Worker.{
  Candidate, each, suspend, after_abandon, abandon, abandon_unpaid, run_reactivation_pipeline,
  clean_stale_sessions, mark_session_warned, warn_expiring_sessions, is_duplicate, release_tables,
  take_tables, abandon_duplicates, reconcile_session_tables, delete_expired_idempotency_keys,
  reap_batches, reap_idempotency_keys,
}
use qr_dining.Safety.Rules.{
  Good, good, Books-same, Moves, Keeps, keeps, Keeps-same, Keeps-pure, Keeps-then, keeps_rules,
}
use qr_dining.Safety.Queries.{Keeps-transition_session_to_awaiting_reactivation}
use qr_dining.Safety.Sessions.{Keeps-abandon_stale_session}

Keeps-each : {A : Type 0} (f : A → Op ⊤) (xs : List A) → ((x : A) → Keeps (f x)) → Keeps (each f xs)
Keeps-each f [] h = Keeps-pure tt
Keeps-each f (x ∷ xs) h = Keeps-then (f x) (each f xs) (h x) (Keeps-each f xs h)

-- An update of sessions by any condition.
Good-update_sessions :
    (p : Session → Bool) (set : Session → Session) (w : World)
    → ((s : Session) → (set s).id ≡ s.id)
    → ((s : Session) → (set s).table_id ≡ s.table_id)
    → ((s : Session) → p s ≡ true → is_live (set s).status ≡ true → is_live s.status ≡ true)
    → ((s : Session) → p s ≡ true → Moves s.status (set s).status)
    → Good w (record w { sessions = update_where p set w.sessions })
Good-update_sessions p set w same_id same_table live moves =
    good
      (λ h t.
        let fewer =
          count-update_where (λ s. s.table_id == t && is_live s.status) p set
            (λ s e e'. ground (arith, same_table s, live s e)) w.sessions in
        ground (arith, h t, fewer))
      (λ h. h)
      (λ k s h.
        let row = find?-update_where (λ (s : Session). s.id) p set k w.sessions same_id in
        elim (Bool-cases (p s)) [
          | inl met ↦ (set s, ground (arith, row), moves s met)
          | inr other ↦ (s, ground (arith, row), inl refl)
        ])
      (λ e h. h) (Books-same w _ (refl, refl, omega arith))

Keeps-mark_session_warned : (id : ℕ) → Keeps (mark_session_warned id)
unfolding mark_session_warned
Keeps-mark_session_warned id = keeps λ w.
    Good-update_sessions (λ s. s.id == id && not (is_some s.warned_at))
      (λ s. record s { warned_at = some w.now }) w (λ s. refl) (λ s. refl) (λ s e h. h)
      (λ s e. inl refl)

Keeps-release_tables : Keeps release_tables
unfolding release_tables
Keeps-release_tables =
    Keeps-same _ (λ w. refl) (λ w. refl) (λ w. refl) (λ w. (refl, refl, omega arith))

Keeps-take_tables : Keeps take_tables
unfolding take_tables
Keeps-take_tables =
    Keeps-same _ (λ w. refl) (λ w. refl) (λ w. refl) (λ w. (refl, refl, omega arith))

Keeps-abandon_duplicates : Keeps abandon_duplicates
unfolding abandon_duplicates validate_session_transition
Keeps-abandon_duplicates = keeps λ w.
    Good-update_sessions (is_duplicate w)
      (λ s. record s { status = abandoned; closed_at = some w.now }) w (λ s. refl) (λ s. refl)
      (λ s e h. absurd (ground arith)) (λ s e. ground arith)

ruleset worker_rules = (
  keeps_rules, Keeps-each, Keeps-transition_session_to_awaiting_reactivation,
  Keeps-abandon_stale_session, Keeps-mark_session_warned, Keeps-release_tables, Keeps-take_tables,
  Keeps-abandon_duplicates,
)

Keeps-suspend : (c : Candidate) → Keeps (suspend c)
unfolding suspend
Keeps-suspend c = search worker_rules depth 40

Keeps-after_abandon : (c : Candidate) (r : Result Bool) → Keeps (after_abandon c r)
Keeps-after_abandon c (ok done) = search worker_rules depth 40
Keeps-after_abandon c (err e) = Keeps-pure tt

Keeps-abandon : (c : Candidate) → Keeps (abandon c)
unfolding abandon
Keeps-abandon c = search (worker_rules, Keeps-after_abandon) depth 40

Keeps-abandon_unpaid : (c : Candidate) → Keeps (abandon_unpaid c)
unfolding abandon_unpaid
Keeps-abandon_unpaid c = search (worker_rules, Keeps-abandon) depth 40

pub Keeps-run_reactivation_pipeline : (p i r : ℕ) → Keeps (run_reactivation_pipeline p i r)
unfolding run_reactivation_pipeline
Keeps-run_reactivation_pipeline p i r =
    search (worker_rules, Keeps-suspend, Keeps-abandon_unpaid) depth 40

pub Keeps-clean_stale_sessions : Keeps clean_stale_sessions
unfolding clean_stale_sessions
Keeps-clean_stale_sessions = search (worker_rules, Keeps-abandon) depth 40

pub Keeps-warn_expiring_sessions : Keeps warn_expiring_sessions
unfolding warn_expiring_sessions
Keeps-warn_expiring_sessions = search worker_rules depth 40

pub Keeps-reconcile_session_tables : Keeps reconcile_session_tables
unfolding reconcile_session_tables
Keeps-reconcile_session_tables = search worker_rules depth 60 fits 4000

Keeps-delete_expired : (cutoff limit : ℕ) → Keeps (delete_expired_idempotency_keys cutoff limit)
unfolding delete_expired_idempotency_keys
Keeps-delete_expired cutoff limit =
    Keeps-same _ (λ w. refl) (λ w. refl) (λ w. refl) (λ w. (refl, refl, omega arith))

Keeps-reap_batches :
    (batch cutoff budget total : ℕ) → Keeps (reap_batches batch cutoff budget total)
unfolding reap_batches
Keeps-reap_batches batch cutoff zero total = Keeps-pure total
Keeps-reap_batches batch cutoff (suc budget) total =
    search (worker_rules, Keeps-delete_expired, λ (n : ℕ). Keeps-reap_batches batch cutoff budget n)
      depth 20

pub Keeps-reap_idempotency_keys :
    (budget retention : ℕ) → Keeps (reap_idempotency_keys budget retention)
unfolding reap_idempotency_keys
Keeps-reap_idempotency_keys budget retention = search (worker_rules, Keeps-reap_batches) depth 20
