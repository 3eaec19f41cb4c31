-- ===== src/Worker/Passes.antt =====
-- What a pass over candidates goes through, and that sorting loses none of them
-- (backend/internal/worker/worker.go).
use qr_dining.Base.{
  ℕ, ◌≡◌, refl, ◌∙◌, sym, subst, ap, ⊤, Bool, true, ◌||◌, some, List, [], ◌∷◌, ◌==◌, arith,
  Bool-cases, inl, inr,
}
use qr_dining.Base.Rows.{find?, exists, select}
use qr_dining.Store.{
  World, Session, Op, ok, ◌>>◌, transition_session_to_awaiting_reactivation, abandon_row,
  update_table_status, revoke_all_participants, bump_all_participant_credential_versions,
}
use qr_dining.Session.{abandon_stale_session, abandon_rows}
use qr_dining.Worker.{
  Candidate, each, has_non_terminal_payment, suspend, abandon, abandon_unpaid, insert_waiting,
  by_waiting,
}

-- A pass over steps that always go on to the next.
module _ {A : Type 0} (f : A → Op ⊤) (goes : (a : A) (w : World) → (f a w).0 ≡ ok tt) where
  pub each_next : (a : A) (xs : List A) (w : World) → each f (a ∷ xs) w ≡ each f xs (f a w).1
  each_next a xs w = ap (λ r. ((λ _. (r, (f a w).1)) >> each f xs) w) (goes a w)

  pub each_goes : (xs : List A) (w : World) → (each f xs w).0 ≡ ok tt
  each_goes [] w = refl
  each_goes (a ∷ xs) w = ap (λ r. r.0) (each_next a xs w) ∙ each_goes xs (f a w).1

pub suspend_goes : (c : Candidate) (w : World) → (suspend c w).0 ≡ ok tt
unfolding suspend has_non_terminal_payment transition_session_to_awaiting_reactivation
suspend_goes c w = ground arith

pub abandon_unpaid_goes : (c : Candidate) (w : World) → (abandon_unpaid c w).0 ≡ ok tt
unfolding abandon_unpaid abandon has_non_terminal_payment abandon_stale_session abandon_rows
    abandon_row update_table_status revoke_all_participants bump_all_participant_credential_versions
abandon_unpaid_goes c w = ground arith

-- Selecting and sorting keep what is listed.
module _ (q : Session → Bool) where
  insert_waiting-exists :
      (r : Session) (rows : List Session)
      → (q r || exists q rows) ≡ true
      → exists q (insert_waiting r rows) ≡ true
  insert_waiting-exists r [] h = h
  insert_waiting-exists r (t ∷ ts) h = ground (arith, insert_waiting-exists r ts)

  pub by_waiting-exists :
      (rows : List Session) → exists q rows ≡ true → exists q (by_waiting rows) ≡ true
  by_waiting-exists [] h = h
  by_waiting-exists (r ∷ rows) h =
      insert_waiting-exists r (by_waiting rows) (ground (arith, by_waiting-exists rows))

  pub select-exists :
      (p : Session → Bool) (rows : List Session) (r : Session) (id : ℕ)
      → find? (λ (r : Session). r.id == id) rows ≡ some r
      → p r ≡ true
      → q r ≡ true
      → exists q (select p rows) ≡ true
  select-exists p [] r id found a b = absurd (cc)
  select-exists p (x ∷ xs) r id found a b = elim (Bool-cases (x.id == id)) [
    | inl mine ↦
        let first : x ≡ r = ground arith in
        let a' = subst (λ z. p z ≡ true) (sym first) a in
        let b' = subst (λ z. q z ≡ true) (sym first) b in ground arith
    | inr other ↦ ground (arith, select-exists p xs r id)
  ]
