-- ===== src/Tenant/Admission.antt =====
-- What the tenant gate decides (backend/internal/services/tenant_status.go).
use qr_dining.Base.{ℕ, ◌≡◌, ◌↔◌, refl, inl, inr, true, none, some, [], arith, ◌==◌, Option-cases}
use qr_dining.Base.Rows.{find?}
use qr_dining.Store.{World, Branch, Organization, ok, get_branch_by_id, get_organization_by_id}
use qr_dining.Tenant.{
  is_active, cached_status, read_status, resolve, ensure_branch_admits_guests, invalidate,
}

-- A branch and its organization that are both active, as the rows have it.
abbrev pub ActiveTenant : ℕ → World → Type 0
ActiveTenant branch_id w =
    (branch : Branch) × (org : Organization) × (find? (λ b. b.id == branch_id) w.branches
      ≡ some branch)
    × (find? (λ o. o.id == branch.organization_id) w.organizations ≡ some org)
    × (is_active org.status ≡ true)
    × (is_active branch.status ≡ true)

-- With nothing cached for the branch, a guest is admitted only to a branch that exists and is active,
-- of an organization that exists and is active: the gate never fails open.
pub admitted_tenant_is_active :
    (branch_id : ℕ) (w : World)
    → cached_status branch_id w ≡ none
    → (ensure_branch_admits_guests branch_id w).0 ≡ ok tt
    → ActiveTenant branch_id w
unfolding ensure_branch_admits_guests resolve read_status get_branch_by_id get_organization_by_id
admitted_tenant_is_active branch_id w fresh h =
    elim (Option-cases (find? (λ b. b.id == branch_id) w.branches)) [
      | inl missing ↦ absurd (ground arith)
      | inr (branch, known) ↦
          elim (Option-cases (find? (λ o. o.id == branch.organization_id) w.organizations)) [
            | inl missing ↦ absurd (ground arith)
            | inr (org, owner) ↦ (branch, org, known, owner, ground arith, ground arith)
          ]
    ]

ActiveTenant-admitted :
    (branch_id : ℕ) (w : World)
    → cached_status branch_id w ≡ none
    → ActiveTenant branch_id w
    → (ensure_branch_admits_guests branch_id w).0 ≡ ok tt
unfolding ensure_branch_admits_guests resolve read_status get_branch_by_id get_organization_by_id
ActiveTenant-admitted branch_id w fresh (branch, org, known, owner, a, b) = ground arith

-- After Invalidate, which the platform calls when it suspends or activates a tenant, the very next
-- guest is admitted if the rows have branch and organization active, and only then.
pub next_guest_admitted_iff :
    (branch_id : ℕ) (w : World)
    → ((ensure_branch_admits_guests branch_id (invalidate w).1).0 ≡ ok tt)
      ↔ ActiveTenant branch_id w
unfolding invalidate
next_guest_admitted_iff branch_id w = (
  admitted_tenant_is_active branch_id (record w { tenant_cache = [] }) refl,
  ActiveTenant-admitted branch_id (record w { tenant_cache = [] }) refl,
)
