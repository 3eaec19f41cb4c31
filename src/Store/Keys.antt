-- ===== src/Store/Keys.antt =====
-- Idempotency keys: backend/internal/repository/idempotency.go with backend/sql/queries/idempotency.sql.
use Prim.Native.String.{String}
use text.Mathlib.Text.{◌==◌ as str_eq}
use qr_dining.Base.{ℕ, ⊤, Bool, true, false, ◌&&◌, none, some, ◌∷◌, ◌==◌, leb, ltb, if◌then◌else◌}
use qr_dining.Base.Rows.{find?, update_where, exists}
use qr_dining.Domain.{no_rows}
use qr_dining.Store.Model.{IdempotencyScope, IdempotencyKey, KeyStatus}
use qr_dining.Store.Monad.{Op, ok, or_fail, modify}

-- The unique columns (scope_type, scope_id, actor_type, actor_id, key).
abbrev pub same_scope : IdempotencyScope → IdempotencyScope → Bool
same_scope a b =
    a.scope_id == b.scope_id
    && str_eq a.actor_type b.actor_type
    && a.actor_id == b.actor_id
    && str_eq a.key b.key

-- A key is reserved if its row is absent or has expired; `false` is the row that DO UPDATE … WHERE
-- does not return.
unfoldable pub create_idempotency_key : IdempotencyScope → String → ℕ → Op Bool
create_idempotency_key scope request_hash expires_at w =
    let row : IdempotencyKey = record {
      scope = scope;
      request_hash = request_hash;
      expires_at = expires_at;
      status = KeyStatus.pending;
      response_resource_id = none;
    } in
    let reclaimed =
      update_where {A = IdempotencyKey} (λ k. same_scope k.scope scope && leb k.expires_at w.now)
        (λ k. row) w.idempotency_keys in
    if exists (λ k. same_scope k.scope scope) w.idempotency_keys
    then (
      ok (exists (λ k. same_scope k.scope scope && leb k.expires_at w.now) w.idempotency_keys),
      record w { idempotency_keys = reclaimed },
    )
    else (ok true, record w { idempotency_keys = row ∷ w.idempotency_keys })

unfoldable pub get_idempotency_key : IdempotencyScope → Op IdempotencyKey
get_idempotency_key scope w =
    or_fail (find? (λ k. same_scope k.scope scope && ltb w.now k.expires_at) w.idempotency_keys)
      no_rows w

unfoldable pub complete_idempotency_key : IdempotencyScope → ℕ → Op ⊤
complete_idempotency_key scope payment_id = modify λ w. record w {
  idempotency_keys =
      update_where (λ k. same_scope k.scope scope)
        (λ k. record k { status = KeyStatus.completed; response_resource_id = some payment_id })
        w.idempotency_keys;
}

abbrev is_pending_key : KeyStatus → Bool
is_pending_key KeyStatus.pending = true
is_pending_key _ = false

unfoldable pub fail_idempotency_key : IdempotencyScope → Op ⊤
fail_idempotency_key scope = modify λ w. record w {
  idempotency_keys =
      update_where (λ k. same_scope k.scope scope && is_pending_key k.status)
        (λ k. record k { status = KeyStatus.failed }) w.idempotency_keys;
}
