-- ===== src/Tenant.antt =====
-- backend/internal/services/tenant_status.go: whether a branch takes new guests, with the cached
-- decision of 60 seconds.
pub mod Admission
use qr_dining.Base.{
  ℕ, ◌+◌, ⊤, Bool, true, false, Option, none, some, List, [], ◌∷◌, ◌==◌, ltb, not, if◌then◌else◌,
}
use qr_dining.Base.Rows.{find?}
use qr_dining.Domain.{organization_suspended, branch_suspended, no_rows}
use qr_dining.Store.{
  World, TenantStatus, TenantState, CacheEntry, Op, or_fail, pure, fail_if, modify, ◌>>=◌, ◌>>◌,
  get_branch_by_id, get_organization_by_id,
}

abbrev pub tenant_status_cache_ttl : ℕ
tenant_status_cache_ttl = 60

abbrev pub is_active : TenantState → Bool
is_active TenantState.active = true
is_active _ = false

abbrev unexpired : ℕ → Option CacheEntry → Option TenantStatus
unexpired now none = none
unexpired now (some e) = if ltb now e.expires_at then some e.value else none

-- The newest SET of a key stands first.
abbrev pub cached_status : ℕ → World → Option TenantStatus
cached_status branch_id w = unexpired w.now (find? (λ e. e.branch_id == branch_id) w.tenant_cache)

unfoldable pub read_status : ℕ → Op TenantStatus
read_status branch_id = do
  branch ← get_branch_by_id branch_id
  org ← get_organization_by_id branch.organization_id
  let status : TenantStatus = record {
    organization_id = org.id;
    organization_status = org.status;
    branch_status = branch.status;
  }
  modify λ w.
      let entry : CacheEntry = record {
        branch_id = branch_id;
        expires_at = w.now + tenant_status_cache_ttl;
        value = status;
      } in
      record w { tenant_cache = entry ∷ w.tenant_cache }
  pure status

unfoldable pub resolve : ℕ → Op TenantStatus
unfolding read_status
resolve branch_id w = elim (cached_status branch_id w) [
  | some status ↦ pure status w
  | none ↦ read_status branch_id w
]

unfoldable pub ensure_branch_admits_guests : ℕ → Op ⊤
ensure_branch_admits_guests branch_id = do
  status ← resolve branch_id
  fail_if (not (is_active status.organization_status)) organization_suspended
  fail_if (not (is_active status.branch_status)) branch_suspended

-- DeleteByPattern "tenantstatus:*"
unfoldable pub invalidate : Op ⊤
invalidate = modify λ w. record w { tenant_cache = [] }
