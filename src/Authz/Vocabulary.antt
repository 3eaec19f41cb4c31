-- ===== src/Authz/Vocabulary.antt =====
-- The words of backend/internal/authz (action.go, actor.go, resource.go, scope.go, and the
-- `Decision` of policy.go). Ids, uuids and session tokens are naturals, with 0 for the zero value.
use qr_dining.Base.{ℕ, Bool, true, false, ◌==◌}

-- `other_action` is any string that no constant of action.go names.
pub data Action : Type 0 where
  organization_read organization_update branch_read branch_update_settings : Action
  staff_create staff_update_role staff_deactivate : Action
  menu_item_update menu_item_toggle_available : Action
  order_status_update order_mark_served assistance_ack assistance_resolve : Action
  payment_settle_staff payment_cancel_staff session_force_close : Action
  promo_create promo_deactivate audit_read_branch : Action
  menu_category_update menu_modifier_update : Action
  staff_pin_update staff_pin_reset staff_list_read : Action
  customer_history customer_delete other_action : Action

-- sqlc.StaffRole; `no_role` is the empty string.
pub data StaffRole : Type 0 where
  owner manager waiter kitchen no_role : StaffRole

abbrev role_place : StaffRole → ℕ
role_place owner = 0
role_place manager = 1
role_place waiter = 2
role_place kitchen = 3
role_place no_role = 4

infix 50 ◌is◌
abbrev pub ◌is◌ : StaffRole → StaffRole → Bool
a is b = role_place a == role_place b

-- `other_actor` is any string but "staff".
pub data ActorType : Type 0 where
  staff other_actor : ActorType

abbrev pub is_staff : ActorType → Bool
is_staff staff = true
is_staff other_actor = false

pub data ResourceType : Type 0 where
  organization branch staff_member menu_item menu_category menu_modifier order assistance payment
        session promo audit customer :
      ResourceType

pub record Scope : Type 0 where
  pub organization_id : ℕ
  pub branch_id : ℕ
  pub session_id : ℕ

pub record Actor : Type 0 where
  pub kind : ActorType
  pub id : ℕ
  pub role : StaffRole
  pub scope : Scope
  pub session : ℕ

pub record Resource : Type 0 where
  pub kind : ResourceType
  pub id : ℕ
  pub scope : Scope

pub data Reason : Type 0 where
  no_reason unsupported_actor_type branch_mismatch organization_mismatch role_not_allowed
        allowed_reason :
      Reason

pub record Decision : Type 0 where
  pub allowed : Bool
  pub reason : Reason
  pub required_scope : Scope
  pub actor_scope : Scope
  pub resource_scope : Scope
  pub audit_hint : Action × ResourceType
  pub scope_violation : Bool
