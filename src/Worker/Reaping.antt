-- ===== src/Worker/Reaping.antt =====
-- The reaper ends, and deletes what it should (backend/internal/worker/worker.go).
use qr_dining.Base.{
  ℕ, zero, suc, ◌+◌, ◌*◌, ◌-◌, ◌≤◌, ◌<◌, ◌≡◌, refl, not, none, some, List, [], ◌∷◌, ltb, arith, ap,
  ◌∙◌, Option-cases, Bool-cases, inl, inr,
}
use native.Mathlib.Nat.{suc-mul, zero-add}
use qr_dining.Base.Rows.{count, select}
use qr_dining.Store.{World, IdempotencyKey, ok}
use qr_dining.Worker.{
  is_stale, first_expiry, delete_one, delete_stale, delete_expired_idempotency_keys, reap_batches,
  reap_idempotency_keys, idempotency_reap_batch_size,
}

module _ (cutoff : ℕ) where
  abbrev pub stale : List IdempotencyKey → ℕ
  stale keys = count (is_stale cutoff) keys

  abbrev pub kept_keys : List IdempotencyKey → List IdempotencyKey
  kept_keys keys = select (λ k. not (is_stale cutoff k)) keys

  first_expiry-none :
      (keys : List IdempotencyKey) → first_expiry cutoff keys ≡ none → stale keys ≡ 0
  first_expiry-none [] h = refl
  first_expiry-none (k ∷ ks) h = ground (arith, first_expiry-none ks)

  -- Deleting the key that expired first deletes one stale key and no other.
  delete_one_lem :
      (keys : List IdempotencyKey) (expiry : ℕ)
      → first_expiry cutoff keys ≡ some expiry
      → (stale (delete_one cutoff expiry keys) + 1 ≡ stale keys)
        × (kept_keys (delete_one cutoff expiry keys) ≡ kept_keys keys)
  delete_one_lem [] expiry h = absurd (cc)
  delete_one_lem (k ∷ ks) expiry h = elim (Option-cases (first_expiry cutoff ks)) [
    | inl last ↦ ground arith
    | inr (t, next) ↦ ground (arith, delete_one_lem ks t next)
  ]

  -- One batch: what it reports is what it deleted, and a short batch leaves nothing stale.
  delete_stale_lem :
      (limit : ℕ) (keys : List IdempotencyKey)
      → let done = delete_stale limit cutoff keys in
        (done.0 + stale done.1 ≡ stale keys)
        × (kept_keys done.1 ≡ kept_keys keys)
        × (done.0 ≤ limit)
        × (done.0 < limit → stale done.1 ≡ 0)
  unfolding delete_stale
  delete_stale_lem zero keys = (omega arith, refl, omega arith, λ h. absurd (omega arith))
  delete_stale_lem (suc limit) keys = elim (Option-cases (first_expiry cutoff keys)) [
    | inl e ↦ rw (e, delete_stale) (omega arith, refl, omega arith, λ _. first_expiry-none keys e)
    | inr (expiry, e) ↦
        let (one, same) = delete_one_lem keys expiry e in
        let (sum, same', most, short) = delete_stale_lem limit (delete_one cutoff expiry keys) in
        rw (e, delete_stale) (omega arith, same' ∙ same, omega arith, λ h. short (omega arith))
  ]

  reap_batches_lem :
      (batch budget total : ℕ) (w : World)
      → 0 < batch
      → stale w.idempotency_keys < budget * batch
      → let (r, w') = reap_batches batch cutoff budget total w in
        (r ≡ ok (total + stale w.idempotency_keys))
        × (stale w'.idempotency_keys ≡ 0)
        × (kept_keys w'.idempotency_keys ≡ kept_keys w.idempotency_keys)
  unfolding reap_batches delete_expired_idempotency_keys
  reap_batches_lem batch zero total w some_ enough = absurd (omega arith)
  reap_batches_lem batch (suc budget) total w some_ enough =
      let done = delete_stale batch cutoff w.idempotency_keys in
      let (sum, same, most, short) = delete_stale_lem batch w.idempotency_keys in
      elim (Bool-cases (ltb done.0 batch)) [
        | inl last ↦
            let clean = short (ground arith) in
            let all : done.0 ≡ stale w.idempotency_keys = omega arith in
            rw last (ap (λ n. ok (total + n)) all, clean, same)
        | inr more ↦
            let full : batch ≤ done.0 = ground arith in
            let (r, clean, same') =
              reap_batches_lem batch budget (total + done.0)
                (record w { idempotency_keys = done.1 }) some_
                (ground (arith, suc-mul budget batch)) in
            let all : total + done.0 + stale done.1 ≡ total + stale w.idempotency_keys =
              omega arith in
            rw more (r ∙ ap (λ (n : ℕ). ok n) all, clean, same' ∙ same)
      ]

-- A pass of the reaper ends with every key deleted that expired longer ago than the retention and no
-- other, and reports how many these were, if its run lasts for one batch more than they fill.
pub reaper_finishes :
    (retention budget : ℕ) (w : World)
    → let cutoff = w.now - retention in
      stale cutoff w.idempotency_keys < budget * idempotency_reap_batch_size
      → let (r, w') = reap_idempotency_keys budget retention w in
        (r ≡ ok (stale cutoff w.idempotency_keys))
        × (stale cutoff w'.idempotency_keys ≡ 0)
        × (kept_keys cutoff w'.idempotency_keys ≡ kept_keys cutoff w.idempotency_keys)
unfolding reap_idempotency_keys
reaper_finishes retention budget w enough =
    let cutoff = w.now - retention in
    let (r, clean, same) =
      reap_batches_lem cutoff idempotency_reap_batch_size budget 0 w (omega arith) enough in
    (r ∙ ap (λ (n : ℕ). ok n) (zero-add (stale cutoff w.idempotency_keys)), clean, same)
