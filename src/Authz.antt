-- ===== src/Authz.antt =====
-- backend/internal/authz: actors, resources, scopes and the role policy of Authorizer.Authorize.
-- Ids are int64 values of which 0 means "not given"; they are only compared, so they are naturals.
-- Reason strings are constructors, in the order in which the source first gives them.
mod Vocabulary
pub mod Policy
pub mod Denials
pub use Vocabulary.*
use qr_dining.Base.{ℕ, Bool, true, false, ◌&&◌, ◌||◌, not, ◌==◌, if◌then◌else◌}

unfoldable pub same_branch : Scope → Scope → Bool
same_branch s other = not (s.branch_id == 0) && s.branch_id == other.branch_id

unfoldable pub same_organization : Scope → Scope → Bool
same_organization s other =
    not (s.organization_id == 0) && s.organization_id == other.organization_id

unfoldable pub requires_same_branch : Action → Bool
requires_same_branch order_status_update = true
requires_same_branch order_mark_served = true
requires_same_branch assistance_ack = true
requires_same_branch assistance_resolve = true
requires_same_branch menu_item_update = true
requires_same_branch menu_item_toggle_available = true
requires_same_branch menu_category_update = true
requires_same_branch menu_modifier_update = true
requires_same_branch promo_create = true
requires_same_branch promo_deactivate = true
requires_same_branch payment_settle_staff = true
requires_same_branch payment_cancel_staff = true
requires_same_branch session_force_close = true
requires_same_branch staff_create = true
requires_same_branch staff_update_role = true
requires_same_branch staff_deactivate = true
requires_same_branch staff_pin_update = true
requires_same_branch staff_pin_reset = true
requires_same_branch staff_list_read = true
requires_same_branch branch_read = true
requires_same_branch branch_update_settings = true
requires_same_branch audit_read_branch = true
requires_same_branch _ = false

unfoldable pub requires_same_organization : Action → Bool
requires_same_organization organization_read = true
requires_same_organization organization_update = true
requires_same_organization customer_history = true
requires_same_organization customer_delete = true
requires_same_organization _ = false

abbrev owner_or_manager : StaffRole → Bool
owner_or_manager r = r is owner || r is manager

abbrev front_of_house : StaffRole → Bool
front_of_house r = r is owner || r is manager || r is waiter

abbrev any_role : StaffRole → Bool
any_role r = r is owner || r is manager || r is waiter || r is kitchen

unfoldable pub role_allowed : StaffRole → Action → Bool
role_allowed r order_status_update = any_role r
role_allowed r assistance_ack = any_role r
role_allowed r assistance_resolve = any_role r
role_allowed r order_mark_served = front_of_house r
role_allowed r menu_item_update = owner_or_manager r
role_allowed r menu_item_toggle_available = owner_or_manager r
role_allowed r menu_category_update = owner_or_manager r
role_allowed r menu_modifier_update = owner_or_manager r
role_allowed r promo_create = owner_or_manager r
role_allowed r promo_deactivate = owner_or_manager r
role_allowed r customer_delete = owner_or_manager r
role_allowed r customer_history = any_role r
role_allowed r staff_create = r is owner
role_allowed r staff_update_role = r is owner
role_allowed r staff_deactivate = r is owner
role_allowed r staff_pin_update = any_role r
role_allowed r staff_pin_reset = owner_or_manager r
role_allowed r staff_list_read = owner_or_manager r
role_allowed r branch_read = not (r is no_role)
role_allowed r audit_read_branch = owner_or_manager r
role_allowed r payment_settle_staff = front_of_house r
role_allowed r payment_cancel_staff = front_of_house r
role_allowed r session_force_close = owner_or_manager r
role_allowed r branch_update_settings = owner_or_manager r
role_allowed r organization_read = owner_or_manager r
role_allowed r organization_update = owner_or_manager r
role_allowed r other_action = false

-- The zero value of `Decision` with the scopes that Authorize fills in first.
abbrev undecided : Actor → Action → Resource → Decision
undecided actor action resource = record {
  allowed = false;
  reason = no_reason;
  required_scope = resource.scope;
  actor_scope = actor.scope;
  resource_scope = resource.scope;
  audit_hint = (action, resource.kind);
  scope_violation = false;
}

unfoldable pub authorize : Actor → Action → Resource → Decision
authorize actor action resource =
    let decision : Decision = undecided actor action resource in
    if not (is_staff actor.kind)
    then record decision { reason = unsupported_actor_type }
    else if requires_same_branch action && not (same_branch actor.scope resource.scope)
    then record decision { reason = branch_mismatch; scope_violation = true }
    else if requires_same_organization action && not (same_organization actor.scope resource.scope)
    then record decision { reason = organization_mismatch; scope_violation = true }
    else if not (role_allowed actor.role action)
    then record decision { reason = role_not_allowed }
    else record decision { allowed = true; reason = allowed_reason }

-- `StaffActor`
abbrev pub staff_actor : ℕ → StaffRole → ℕ → ℕ → ℕ → Actor
staff_actor staff_id role branch_id organization_id guest = record {
  kind = staff;
  id = staff_id;
  role = role;
  scope = record { organization_id = organization_id; branch_id = branch_id; session_id = 0 };
  session = guest;
}
