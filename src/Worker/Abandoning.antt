-- ===== src/Worker/Abandoning.antt =====
-- A pass of the reactivation pipeline gets rid of the sessions whose window has passed
-- (backend/internal/worker/worker.go).
use qr_dining.Base.{
  ℕ, ◌+◌, ◌-◌, ◌<◌, ◌≡◌, refl, ◌∙◌, sym, subst, ap, ⊤, Bool, true, false, ◌&&◌, ◌||◌, none, some,
  List, [], ◌∷◌, ◌==◌, arith, Bool-cases, Option-cases, inl, inr,
}
use qr_dining.Base.Rows.{find?, exists, select, update_where, find?-holds, find?-update_where}
use qr_dining.Domain.{active, awaiting_reactivation, abandoned}
use qr_dining.Store.{
  World, Session, Branch, Op, gets, ◌>>=◌, ◌>>◌, is_open_for, ◌is◌,
  transition_session_to_awaiting_reactivation, abandon_row, update_table_status,
  revoke_all_participants, bump_all_participant_credential_versions,
}
use qr_dining.Session.{abandon_stale_session, abandon_rows}
use qr_dining.Worker.{
  Candidate, each, has_non_terminal_payment, suspend, abandon, abandon_unpaid, join_branches,
  by_waiting, waits_since_before, run_reactivation_pipeline, list_reactivation_candidates,
  list_awaiting_reactivation_expired,
}
use qr_dining.Worker.Passes.{
  each_next, each_goes, suspend_goes, abandon_unpaid_goes, by_waiting-exists, select-exists,
}
use qr_dining.Worker.Pipeline.{session_row}

-- An update that does not concern a row.
spared :
    (id : ℕ) (s : Session) (p : Session → Bool) (f : Session → Session) (rows : List Session)
    → ((r : Session) → (f r).id ≡ r.id)
    → p s ≡ false
    → find? (λ (r : Session). r.id == id) rows ≡ some s
    → find? (λ (r : Session). r.id == id) (update_where p f rows) ≡ some s
spared id s p f rows same none_ found =
    ground (arith, find?-update_where (λ (r : Session). r.id) p f id rows same)

abbrev pub Gone : ℕ → World → Type 0
Gone id w = (row : Session) × (session_row id w ≡ some row) × (row.status ≡ abandoned)

-- What is abandoned stays so.
abandon_unpaid-Gone :
    (id : ℕ) (c : Candidate) (w : World) → Gone id w → Gone id (abandon_unpaid c w).1
unfolding abandon_unpaid abandon has_non_terminal_payment abandon_stale_session abandon_rows
    abandon_row update_table_status revoke_all_participants bump_all_participant_credential_versions
abandon_unpaid-Gone id c w (row, found, over) =
    elim (Option-cases (find? (λ (r : Session). r.id == c.id) w.sessions)) [
      | inl gone ↦ (row, ground arith, over)
      | inr (sess, known) ↦
          let kept =
            spared id row
              (λ r. r.id == sess.id && (r.status is active || r.status is awaiting_reactivation))
              (λ r. record r { status = abandoned; closed_at = some w.now }) w.sessions (λ r. refl)
              (ground arith) found in
          (row, ground (arith, kept), over)
    ]

each-Gone :
    (id : ℕ) (cs : List Candidate) (w : World) → Gone id w → Gone id (each abandon_unpaid cs w).1
each-Gone id [] w h = h
each-Gone id (c ∷ cs) w h =
    subst (λ r. Gone id r.1) (sym (each_next abandon_unpaid abandon_unpaid_goes c cs w))
      (each-Gone id cs (abandon_unpaid c w).1 (abandon_unpaid-Gone id c w h))

module _ (id : ℕ) (s : Session) (waiting : s.status ≡ awaiting_reactivation) where
  -- The session waits as before.
  data Waits (w w' : World) : Type 0 where
    waits :
        session_row id w' ≡ some s
        → w'.payments ≡ w.payments
        → w'.branches ≡ w.branches
        → w'.now ≡ w.now
        → Waits w w'

  Waits-trans : {u v w : World} → Waits u v → Waits v w → Waits u w
  Waits-trans (waits a b c d) (waits a' b' c' d') = waits a' (b' ∙ b) (c' ∙ c) (d' ∙ d)

  suspend-Waits : (c : Candidate) (w : World) → session_row id w ≡ some s → Waits w (suspend c w).1
  unfolding suspend has_non_terminal_payment transition_session_to_awaiting_reactivation
  suspend-Waits c w found =
      let row =
        spared id s (λ r. r.id == c.id && r.status is active)
          (λ r. record r { status = awaiting_reactivation; awaiting_reactivation_at = some w.now })
          w.sessions (λ r. refl) (ground arith) found in
      waits (ground (arith, row)) (ground arith) (ground arith) (ground arith)

  suspended-Waits :
      (cs : List Candidate) (w : World) → session_row id w ≡ some s → Waits w (each suspend cs w).1
  suspended-Waits [] w found = waits found refl refl refl
  suspended-Waits (c ∷ cs) w found = elim (suspend-Waits c w found) [
    | waits a b d e ↦
        subst (λ r. Waits w r.1) (sym (each_next suspend suspend_goes c cs w))
          (Waits-trans (waits a b d e) (suspended-Waits cs (suspend c w).1 a))
  ]

  -- The candidate that the session is listed as.
  abbrev is_it : Candidate → Bool
  is_it c = c.id == id && c.table_id == s.table_id

  -- A candidate that is another session, or has another table, changes nothing about this one.
  other-Waits :
      (c : Candidate) (w : World)
      → session_row id w ≡ some s
      → is_it c ≡ false
      → Waits w (abandon_unpaid c w).1
  unfolding abandon_unpaid abandon has_non_terminal_payment abandon_stale_session abandon_rows
      abandon_row update_table_status revoke_all_participants
      bump_all_participant_credential_versions
  other-Waits c w found other =
      let mine = find?-holds (λ (r : Session). r.id == id) w.sessions found in
      elim (Bool-cases (c.id == id)) [
        | inl same_id ↦
            let same : id ≡ c.id = ground arith in
            let here =
              subst (λ k. find? (λ (r : Session). r.id == k) w.sessions ≡ some s) same found in
            waits (ground arith) (ground arith) (ground arith) (ground arith)
        | inr away ↦
            let row =
              spared id s
                (λ r. r.id == c.id && (r.status is active || r.status is awaiting_reactivation))
                (λ r. record r { status = abandoned; closed_at = some w.now }) w.sessions
                (λ r. refl) (ground arith) found in
            elim (Option-cases (find? (λ (r : Session). r.id == c.id) w.sessions)) [
              | inl gone ↦ waits (ground arith) (ground arith) (ground arith) (ground arith)
              | inr (sess, known) ↦
                  let its_id = find?-holds (λ (r : Session). r.id == c.id) w.sessions known in
                  let same : sess.id ≡ c.id = ground arith in
                  let row' =
                    subst
                      (λ k.
                        find? (λ (r : Session). r.id == id)
                          (update_where
                            (λ r.
                              r.id == k
                              && (r.status is active || r.status is awaiting_reactivation))
                            (λ r. record r { status = abandoned; closed_at = some w.now })
                            w.sessions)
                        ≡ some s)
                      (sym same) row in
                  waits (ground arith) (ground arith) (ground arith) (ground arith)
            ]
      ]

  taken-Gone :
      (c : Candidate) (w : World)
      → session_row id w ≡ some s
      → is_it c ≡ true
      → exists (is_open_for id) w.payments ≡ false
      → Gone id (abandon_unpaid c w).1
  unfolding abandon_unpaid abandon has_non_terminal_payment abandon_stale_session abandon_rows
      abandon_row update_table_status revoke_all_participants
      bump_all_participant_credential_versions
  taken-Gone c w found it unpaid =
      let mine = find?-holds (λ (r : Session). r.id == id) w.sessions found in
      let same : id ≡ c.id = ground arith in
      let here = subst (λ k. find? (λ (r : Session). r.id == k) w.sessions ≡ some s) same found in
      let none_ = subst (λ k. exists (is_open_for k) w.payments ≡ false) same unpaid in
      let f : Session → Session = λ r. record r { status = abandoned; closed_at = some w.now } in
      let updated =
        find?-update_where (λ (r : Session). r.id)
          (λ r. r.id == s.id && (r.status is active || r.status is awaiting_reactivation)) f id
          w.sessions (λ r. refl) in
      (f s, ground (arith, updated), refl)

  abandoned-Gone :
      (cs : List Candidate) (w : World)
      → session_row id w ≡ some s
      → exists (is_open_for id) w.payments ≡ false
      → exists is_it cs ≡ true
      → Gone id (each abandon_unpaid cs w).1
  abandoned-Gone [] w found unpaid listed = absurd (cc)
  abandoned-Gone (c ∷ cs) w found unpaid listed = elim (Bool-cases (is_it c)) [
    | inl it ↦
        subst (λ r. Gone id r.1) (sym (each_next abandon_unpaid abandon_unpaid_goes c cs w))
          (each-Gone id cs (abandon_unpaid c w).1 (taken-Gone c w found it unpaid))
    | inr other ↦ elim (other-Waits c w found other) [
      | waits a b d e ↦
          subst (λ r. Gone id r.1) (sym (each_next abandon_unpaid abandon_unpaid_goes c cs w))
            (abandoned-Gone cs (abandon_unpaid c w).1 a (ap (exists (is_open_for id)) b ∙ unpaid)
              (ground arith))
    ]
  ]

  -- The row as it is joined with its branch.
  is_its_row : Session → Bool
  is_its_row r = r.id == id && r.table_id == s.table_id && r.branch_id == s.branch_id

  join_branches-exists :
      (w : World) (b : Branch) (rows : List Session)
      → find? (λ (k : Branch). k.id == s.branch_id) w.branches ≡ some b
      → exists is_its_row rows ≡ true
      → exists is_it (join_branches w rows) ≡ true
  unfolding is_its_row
  join_branches-exists w b [] known h = absurd (cc)
  join_branches-exists w b (r ∷ rows) known h =
      elim (Option-cases (find? (λ (k : Branch). k.id == r.branch_id) w.branches)) [
        | inl none_ ↦ elim (Bool-cases (is_its_row r)) [
          | inl mine ↦
              let same : r.branch_id ≡ s.branch_id = ground arith in
              let none_' =
                subst (λ k. find? (λ (b : Branch). b.id == k) w.branches ≡ none) same none_ in
              absurd (cc)
          | inr other ↦ ground (arith, join_branches-exists w b rows known)
        ]
        | inr (c, e) ↦ ground (arith, join_branches-exists w b rows known)
      ]

  listed :
      (window since : ℕ) (w : World) (b : Branch)
      → session_row id w ≡ some s
      → s.awaiting_reactivation_at ≡ some since
      → since + window < w.now
      → find? (λ (k : Branch). k.id == s.branch_id) w.branches ≡ some b
      → exists is_it (list_awaiting_reactivation_expired (w.now - window) w) ≡ true
  unfolding list_awaiting_reactivation_expired is_its_row
  listed window since w b found waited passed known =
      let mine = find?-holds (λ (r : Session). r.id == id) w.sessions found in
      join_branches-exists w b
        (by_waiting (
          select
            (λ r.
              r.status is awaiting_reactivation
              && waits_since_before r.awaiting_reactivation_at (w.now - window))
            w.sessions))
        known
        (by_waiting-exists is_its_row
          (select
            (λ r.
              r.status is awaiting_reactivation
              && waits_since_before r.awaiting_reactivation_at (w.now - window))
            w.sessions)
          (select-exists is_its_row
            (λ r.
              r.status is awaiting_reactivation
              && waits_since_before r.awaiting_reactivation_at (w.now - window))
            w.sessions s id found (ground arith) (ground arith)))

  -- A pass of the pipeline abandons a session that has been awaiting reactivation for longer than the
  -- window with no payment under way, whatever else the pass has to do, if its branch has a row.
  pub pipeline_abandons_expired :
      (presence_grace idle_grace window since : ℕ) (w : World) (b : Branch)
      → session_row id w ≡ some s
      → s.awaiting_reactivation_at ≡ some since
      → since + window < w.now
      → exists (is_open_for id) w.payments ≡ false
      → find? (λ (k : Branch). k.id == s.branch_id) w.branches ≡ some b
      → Gone id (run_reactivation_pipeline presence_grace idle_grace window w).1
  unfolding run_reactivation_pipeline
  pipeline_abandons_expired presence_grace idle_grace window since w b found waited passed unpaid
        known =
      let candidates =
        list_reactivation_candidates (w.now - presence_grace) (w.now - idle_grace) w in
      let later : Op ⊤ =
        gets (λ v. list_awaiting_reactivation_expired (v.now - window) v) >>= each abandon_unpaid in
      let w' = (each suspend candidates w).1 in
      elim (suspended-Waits candidates w found) [
        | waits found' payments branches now ↦
            subst (λ r. Gone id (((λ _. (r, w')) >> later) w).1)
              (sym (each_goes suspend suspend_goes candidates w))
              (abandoned-Gone (list_awaiting_reactivation_expired (w'.now - window) w') w' found'
                (ap (exists (is_open_for id)) payments ∙ unpaid)
                (listed window since w' b found' waited
                  (subst (λ t. since + window < t) (sym now) passed)
                  (ap (find? (λ (k : Branch). k.id == s.branch_id)) branches ∙ known)))
      ]
