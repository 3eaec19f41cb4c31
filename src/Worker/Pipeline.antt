-- ===== src/Worker/Pipeline.antt =====
-- What a pass of the reactivation pipeline does to a session (backend/internal/worker/worker.go).
use qr_dining.Base.{
  ℕ, ◌-◌, ◌≡◌, refl, ◌∙◌, sym, subst, ⊤, Bool, true, false, ◌&&◌, ◌||◌, Option, some, List, [], ◌∷◌,
  ◌==◌, arith, Bool-cases, Option-cases, inl, inr,
}
use qr_dining.Base.Rows.{find?, exists, update_where, find?-holds}
use qr_dining.Domain.{active, awaiting_reactivation, abandoned}
use qr_dining.Store.{
  World, Session, Op, Result, ok, err, gets, ◌>>=◌, ◌>>◌, is_open_for, ◌is◌,
  transition_session_to_awaiting_reactivation, abandon_row, update_table_status,
  revoke_all_participants, bump_all_participant_credential_versions,
}
use qr_dining.Session.{abandon_stale_session, abandon_rows}
use qr_dining.Worker.{
  Candidate, each, has_non_terminal_payment, suspend, abandon, abandon_unpaid,
  run_reactivation_pipeline, list_reactivation_candidates, list_awaiting_reactivation_expired,
}

abbrev pub session_row : ℕ → World → Option Session
session_row id w = find? (λ s. s.id == id) w.sessions

module _ (id : ℕ) where
  abbrev pub IsPaying : World → Type 0
  IsPaying w = exists (is_open_for id) w.payments ≡ true

  -- What happened between two worlds left the session and all payments alone.
  data Spares (w w' : World) : Type 0 where
    spares : w'.payments ≡ w.payments → session_row id w' ≡ session_row id w → Spares w w'

  Spares-trans : {u v w : World} → Spares u v → Spares v w → Spares u w
  Spares-trans (spares a b) (spares c d) = spares (c ∙ a) (d ∙ b)

  row_of : {w w' : World} → Spares w w' → session_row id w' ≡ session_row id w
  row_of (spares p s) = s

  -- An update of other rows.
  other_row :
      (k : ℕ) (c : Session → Bool) (f : Session → Session) (rows : List Session)
      → (k == id) ≡ false
      → ((s : Session) → (f s).id ≡ s.id)
      → find? (λ s. s.id == id) (update_where (λ s. s.id == k && c s) f rows)
        ≡ find? (λ s. s.id == id) rows
  other_row k c f [] other same = refl
  other_row k c f (r ∷ rows) other same = ground (arith, same r, other_row k c f rows other same)

  suspend-Spares : (c : Candidate) (w : World) → IsPaying w → Spares w (suspend c w).1
  unfolding suspend has_non_terminal_payment transition_session_to_awaiting_reactivation
  suspend-Spares c w paying = elim (Bool-cases (c.id == id)) [
    | inl mine ↦
        let same : id ≡ c.id = ground arith in
        let pending = subst (λ k. exists (is_open_for k) w.payments ≡ true) same paying in
        spares (ground arith) (ground arith)
    | inr other ↦
        let row =
          other_row c.id (λ s. s.status is active)
            (λ s. record s {
              status = awaiting_reactivation;
              awaiting_reactivation_at = some w.now;
            })
            w.sessions other (λ s. refl) in
        spares (ground arith) (ground (arith, row))
  ]

  abandon-Spares : (c : Candidate) (w : World) → IsPaying w → Spares w (abandon_unpaid c w).1
  unfolding abandon_unpaid abandon has_non_terminal_payment abandon_stale_session abandon_rows
      abandon_row update_table_status revoke_all_participants
      bump_all_participant_credential_versions
  abandon-Spares c w paying = elim (Bool-cases (c.id == id)) [
    | inl mine ↦
        let same : id ≡ c.id = ground arith in
        let pending = subst (λ k. exists (is_open_for k) w.payments ≡ true) same paying in
        spares (ground arith) (ground arith)
    | inr other ↦
        let row =
          other_row c.id (λ s. s.status is active || s.status is awaiting_reactivation)
            (λ s. record s { status = abandoned; closed_at = some w.now }) w.sessions other
            (λ s. refl) in
        elim (Option-cases (find? (λ (s : Session). s.id == c.id) w.sessions)) [
          | inl gone ↦ spares (ground arith) (ground arith)
          | inr (sess, found) ↦
              let mine = find?-holds (λ (s : Session). s.id == c.id) w.sessions found in
              let same : sess.id ≡ c.id = ground arith in
              spares (ground arith) (ground (arith, row))
        ]
  ]

  each-Spares :
      (f : Candidate → Op ⊤)
      → ((c : Candidate) (w : World) → IsPaying w → Spares w (f c w).1)
      → (cs : List Candidate) (w : World) → IsPaying w
      → Spares w (each f cs w).1
  each-Spares f h [] w paying = spares refl refl
  each-Spares f h (c ∷ cs) w paying = go (f c w) (h c w paying) (λ w'. each-Spares f h cs w')
    where
      go :
          (r : Result ⊤ × World)
          → Spares w r.1
          → ((w' : World) → IsPaying w' → Spares w' (each f cs w').1)
          → Spares w (((λ _. r) >> each f cs) w).1
      go (ok tt, w') (spares p s) rest =
          Spares-trans (spares p s)
            (rest w' (subst (λ ps. exists (is_open_for id) ps ≡ true) (sym p) paying))
      go (err e, w') h rest = h

  -- A pass of the pipeline leaves a session with a payment under way as it is: it is neither suspended nor
  -- abandoned, however long its guests have been away.
  pub pipeline_leaves_paying_sessions :
      (presence_grace idle_grace window : ℕ) (w : World)
      → IsPaying w
      → session_row id (run_reactivation_pipeline presence_grace idle_grace window w).1
        ≡ session_row id w
  unfolding run_reactivation_pipeline
  pipeline_leaves_paying_sessions presence_grace idle_grace window w paying =
      row_of
        (go (each suspend candidates w) (each-Spares suspend suspend-Spares candidates w paying))
    where
      candidates : List Candidate
      candidates = list_reactivation_candidates (w.now - presence_grace) (w.now - idle_grace) w

      later : Op ⊤
      later = do
        expired ← gets (λ v. list_awaiting_reactivation_expired (v.now - window) v)
        each abandon_unpaid expired

      go : (r : Result ⊤ × World) → Spares w r.1 → Spares w (((λ _. r) >> later) w).1
      go (ok tt, w') (spares p s) = Spares-trans (spares p s) (
          each-Spares abandon_unpaid abandon-Spares
            (list_awaiting_reactivation_expired (w'.now - window) w') w'
            (subst (λ ps. exists (is_open_for id) ps ≡ true) (sym p) paying))
      go (err e, w') h = h
