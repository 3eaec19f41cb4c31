-- ===== src/Tests/DomainRuns.antt =====
-- The transition tables and the role policy at concrete inputs.
use qr_dining.Base.{◌≤◌, ◌≡◌, refl, ◌≢◌, ◌↔◌, ◌⊎◌, inl, true, false, none, arith}
use qr_dining.Domain.{
  OrderStatus, SessionStatus, is_session_terminal, validate_order_transition,
  validate_session_transition,
}
use qr_dining.Domain.Transitions.{
  terminal_iff_no_exit, OrderPath, start, move, order_updates_bounded,
}
use qr_dining.Authz.{
  other_action, Actor, Resource, ResourceType, payment_settle_staff, session_force_close, waiter,
  owner, staff_actor, authorize, role_allowed, same_branch, requires_same_branch,
  requires_same_organization,
}
use qr_dining.Authz.Policy.{
  SameTenant, allowed_within_tenant, allowed_of_tenant, role_allowed_mono, every_action_is_scoped,
}
use qr_dining.Authz.Denials.{scope_violation_iff}

terminal_iff_no_exit_example :
    (is_session_terminal SessionStatus.closed ≡ true)
    ↔ ((t : SessionStatus) → validate_session_transition SessionStatus.closed t ≢ none)
terminal_iff_no_exit_example = terminal_iff_no_exit SessionStatus.closed

kitchen_route : OrderPath OrderStatus.pending OrderStatus.served 4
unfolding validate_order_transition
kitchen_route = served_after (ready_after (prepared_after (confirmed_after start)))
  where
    confirmed_after :
        OrderPath OrderStatus.pending OrderStatus.pending 0
        → OrderPath OrderStatus.pending OrderStatus.confirmed 1
    confirmed_after p = move p refl

    prepared_after :
        OrderPath OrderStatus.pending OrderStatus.confirmed 1
        → OrderPath OrderStatus.pending OrderStatus.preparing 2
    prepared_after p = move p refl

    ready_after :
        OrderPath OrderStatus.pending OrderStatus.preparing 2
        → OrderPath OrderStatus.pending OrderStatus.ready 3
    ready_after p = move p refl

    served_after :
        OrderPath OrderStatus.pending OrderStatus.ready 3
        → OrderPath OrderStatus.pending OrderStatus.served 4
    served_after p = move p refl

order_updates_bounded_example : 4 ≤ 4
order_updates_bounded_example = order_updates_bounded kitchen_route

abbrev collector : Actor
collector = staff_actor 7 waiter 10 1 0

abbrev bill : Resource
bill = record {
  kind = ResourceType.payment;
  id = 300;
  scope = record { organization_id = 1; branch_id = 10; session_id = 100 };
}

waiter_settles : (authorize collector payment_settle_staff bill).allowed ≡ true
unfolding authorize requires_same_branch same_branch requires_same_organization role_allowed
waiter_settles = refl

allowed_within_tenant_example :
    (true ≡ true)
    × (role_allowed waiter payment_settle_staff ≡ true)
    × SameTenant payment_settle_staff collector.scope bill.scope
allowed_within_tenant_example =
    allowed_within_tenant collector payment_settle_staff bill waiter_settles

may_settle : role_allowed waiter payment_settle_staff ≡ true
unfolding role_allowed
may_settle = refl

settling_is_scoped : requires_same_branch payment_settle_staff ≡ true
unfolding requires_same_branch
settling_is_scoped = refl

allowed_of_tenant_example : (authorize collector payment_settle_staff bill).allowed ≡ true
allowed_of_tenant_example =
    allowed_of_tenant collector payment_settle_staff bill refl may_settle
      (inl (settling_is_scoped, omega arith, refl))

role_allowed_mono_example : role_allowed owner payment_settle_staff ≡ true
role_allowed_mono_example =
    role_allowed_mono waiter owner payment_settle_staff (omega arith) may_settle

waiter_may_not_force_close : (authorize collector session_force_close bill).allowed ≡ false
unfolding authorize role_allowed same_branch requires_same_branch requires_same_organization
waiter_may_not_force_close = refl

every_action_is_scoped_example :
    ((requires_same_branch payment_settle_staff ≡ true)
      × (requires_same_organization payment_settle_staff ≡ false))
    ⊎ ((requires_same_branch payment_settle_staff ≡ false)
        × (requires_same_organization payment_settle_staff ≡ true))
every_action_is_scoped_example = every_action_is_scoped payment_settle_staff (λ e. cc)

scope_violation_iff_example :
    ((authorize collector payment_settle_staff bill).scope_violation ≡ true) ↔ (
      (true ≡ true)
      × (payment_settle_staff ≢ other_action)
      × (¬ SameTenant payment_settle_staff collector.scope bill.scope))
scope_violation_iff_example = scope_violation_iff collector payment_settle_staff bill
