-- ===== src/Worker/Reaper.antt =====
-- ReapIdempotencyKeys of backend/internal/worker/worker.go, with the query
-- DeleteExpiredIdempotencyKeys. The query deletes the keys that expired first, as many as its limit
-- says; it is run one key at a time here.
use qr_dining.Base.{
  ℕ, zero, suc, ◌+◌, ◌-◌, Bool, ◌&&◌, Option, none, some, List, [], ◌∷◌, ◌==◌, ltb, if◌then◌else◌,
}
use qr_dining.Store.{IdempotencyKey, Op, ok, pure, ◌>>=◌, gets}

abbrev pub is_stale : ℕ → IdempotencyKey → Bool
is_stale cutoff k = ltb k.expires_at cutoff

abbrev pub earlier : Option ℕ → ℕ → ℕ
earlier none t = t
earlier (some u) t = if ltb u t then u else t

-- The earliest expiry among the stale keys.
abbrev pub first_expiry : ℕ → List IdempotencyKey → Option ℕ
first_expiry cutoff [] = none
first_expiry cutoff (k ∷ ks) =
    let rest = first_expiry cutoff ks in
    if is_stale cutoff k then some (earlier rest k.expires_at) else rest

abbrev pub delete_one : ℕ → ℕ → List IdempotencyKey → List IdempotencyKey
delete_one cutoff expiry [] = []
delete_one cutoff expiry (k ∷ ks) =
    let rest = k ∷ delete_one cutoff expiry ks in
    if is_stale cutoff k && k.expires_at == expiry then ks else rest

-- How many keys were deleted, and those that are left.
unfoldable pub delete_stale : ℕ → ℕ → List IdempotencyKey → ℕ × List IdempotencyKey
delete_stale zero cutoff keys = (0, keys)
delete_stale (suc limit) cutoff keys = elim (first_expiry cutoff keys) [
  | none ↦ (0, keys)
  | some expiry ↦
      let (n, left) = delete_stale limit cutoff (delete_one cutoff expiry keys) in (n + 1, left)
]

unfoldable pub delete_expired_idempotency_keys : ℕ → ℕ → Op ℕ
delete_expired_idempotency_keys expired_before limit w =
    let (n, left) = delete_stale limit expired_before w.idempotency_keys in
    (ok n, record w { idempotency_keys = left })

-- idempotencyReapBatchSize
abbrev pub idempotency_reap_batch_size : ℕ
idempotency_reap_batch_size = 1000

-- The loop; `budget` is how many batches the run's context lasts for.
unfoldable pub reap_batches : ℕ → ℕ → ℕ → ℕ → Op ℕ
reap_batches batch cutoff zero total = pure total
reap_batches batch cutoff (suc budget) total = do
  deleted ← delete_expired_idempotency_keys cutoff batch
  let rest = reap_batches batch cutoff budget (total + deleted)
  if ltb deleted batch then pure (total + deleted) else rest

unfoldable pub reap_idempotency_keys : ℕ → ℕ → Op ℕ
reap_idempotency_keys budget retention = do
  now ← gets (λ w. w.now)
  reap_batches idempotency_reap_batch_size (now - retention) budget 0
