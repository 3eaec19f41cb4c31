-- ===== src/Authz/Policy.antt =====
-- What Authorizer.Authorize grants (backend/internal/authz/policy.go).
use qr_dining.Base.{ℕ, ◌≤◌, ◌≡◌, refl, ◌≢◌, ◌⊎◌, true, false, arith}
use qr_dining.Authz.{
  Action, StaffRole, Actor, Resource, Scope, other_action, owner, manager, waiter, kitchen, no_role,
  authorize, same_branch, same_organization, requires_same_branch, requires_same_organization,
  role_allowed, is_staff,
}

-- The tenant that the actor and the resource share: the same non-zero branch for an action of a
-- branch, the same non-zero organization for an action of an organization.
abbrev pub SameTenant : Action → Scope → Scope → Type 0
SameTenant action actor resource =
    ((requires_same_branch action ≡ true)
      × (actor.branch_id ≢ 0)
      × (actor.branch_id ≡ resource.branch_id))
    ⊎ ((requires_same_organization action ≡ true)
        × (actor.organization_id ≢ 0)
        × (actor.organization_id ≡ resource.organization_id))

-- Every constant of action.go is scoped by a branch or by an organization, and none by both.
pub every_action_is_scoped :
    (action : Action)
    → action ≢ other_action
    → ((requires_same_branch action ≡ true) × (requires_same_organization action ≡ false))
      ⊎ ((requires_same_branch action ≡ false) × (requires_same_organization action ≡ true))
unfolding requires_same_branch requires_same_organization
every_action_is_scoped action h = ground arith

other_action_refused : (r : StaffRole) → role_allowed r other_action ≡ false
unfolding role_allowed
other_action_refused owner = refl
other_action_refused _ = refl

allowed_is_known :
    (r : StaffRole) (action : Action) → role_allowed r action ≡ true → action ≢ other_action
allowed_is_known r action h e = cc (other_action_refused r)

-- An action is granted only to staff whose role the policy names, and only within one tenant.
pub allowed_within_tenant :
    (actor : Actor) (action : Action) (resource : Resource)
    → (authorize actor action resource).allowed ≡ true
    → (is_staff actor.kind ≡ true)
      × (role_allowed actor.role action ≡ true)
      × SameTenant action actor.scope resource.scope
unfolding authorize same_branch same_organization
allowed_within_tenant actor action resource h =
    let permitted : role_allowed actor.role action ≡ true = ground arith in
    (
      ground arith,
      permitted,
      ground (arith, every_action_is_scoped action (allowed_is_known actor.role action permitted)),
    )

-- Staff whose role the policy names are granted every action within their tenant.
pub allowed_of_tenant :
    (actor : Actor) (action : Action) (resource : Resource)
    → is_staff actor.kind ≡ true
    → role_allowed actor.role action ≡ true
    → SameTenant action actor.scope resource.scope
    → (authorize actor action resource).allowed ≡ true
unfolding authorize same_branch same_organization
allowed_of_tenant actor action resource s r t =
    ground (arith, every_action_is_scoped action (allowed_is_known actor.role action r))

-- How much a role may do: owner above manager, manager above waiter, waiter above kitchen.
abbrev pub authority : StaffRole → ℕ
authority owner = 4
authority manager = 3
authority waiter = 2
authority kitchen = 1
authority no_role = 0

-- Whatever a role may do, every role above it may do too.
pub role_allowed_mono :
    (r s : StaffRole) (action : Action)
    → authority r ≤ authority s
    → role_allowed r action ≡ true
    → role_allowed s action ≡ true
unfolding role_allowed
role_allowed_mono owner s a h e = ground arith
role_allowed_mono r s a h e = ground arith
