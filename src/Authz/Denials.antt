-- ===== src/Authz/Denials.antt =====
-- How Authorizer.Authorize tells a breach of the tenant's scope from a refused role
-- (backend/internal/authz/policy.go).
use qr_dining.Base.{◌≡◌, ◌≢◌, ◌↔◌, true, false, subst, sym, arith}
use qr_dining.Authz.{
  Action, Actor, Resource, other_action, authorize, same_branch, same_organization, is_staff,
  requires_same_branch, requires_same_organization,
}
use qr_dining.Authz.Policy.{SameTenant, every_action_is_scoped}

-- For an unlisted action no scope is looked at.
other_action_unscoped :
    (actor : Actor) (resource : Resource)
    → (authorize actor other_action resource).scope_violation ≡ false
unfolding authorize requires_same_branch requires_same_organization
other_action_unscoped actor resource = ground arith

-- ScopeViolation is set exactly when a member of staff asks for an action that the policy knows
-- outside the tenant of the resource, whatever the role: a refusal by role alone leaves it clear, and so
-- does an action string that is none of the constants.
pub scope_violation_iff :
    (actor : Actor) (action : Action) (resource : Resource)
    → ((authorize actor action resource).scope_violation ≡ true) ↔ (
        (is_staff actor.kind ≡ true)
        × (action ≢ other_action)
        × (¬ SameTenant action actor.scope resource.scope))
unfolding authorize same_branch same_organization
scope_violation_iff actor action resource = (
  λ h.
      let known : action ≢ other_action = λ e. ground (
        arith,
        subst (λ a. (authorize actor a resource).scope_violation ≡ false) (sym e)
            (other_action_unscoped actor resource),
      ) in
      (ground arith, known, λ t. ground (arith, every_action_is_scoped action known)),
  λ (staff, known, outside). ground (arith, every_action_is_scoped action known),
)
