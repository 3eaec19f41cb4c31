-- ===== src/Domain/Errors.antt =====
-- The sentinel errors of backend/internal/domain/errors.go, and what the code passes on untranslated:
-- `no_rows` is pgx.ErrNoRows, `unique_violation` PostgreSQL's 23505, `check_violation` its 23514, and
-- `one_non_terminal_violation` that of idx_payments_one_non_terminal_per_session.
pub data Error : Type 0 where
  session_not_found session_closed session_already_active session_not_active payment_in_progress
        session_terminal_read_expired guest_credential_revoked :
      Error
  participant_not_found participant_unauthorized not_session_host participant_not_in_session
        host_transfer_during_payment :
      Error
  order_not_found duplicate_order idempotency_conflict idempotency_in_progress
        invalid_order_transition order_not_editable :
      Error
  cart_item_not_found menu_item_unavailable menu_item_not_found modifier_not_found
        modifier_conflict :
      Error
  assistance_not_found assistance_already_resolved invalid_assistance_transition : Error
  payment_not_found payment_already_processed invalid_payment_transition payment_verification_failed
        bill_snapshot_stale :
      Error
  duplicate_webhook_event invalid_webhook_signature : Error
  table_not_found table_occupied duplicate_table_identifier duplicate_branch_code : Error
  category_not_found category_not_empty : Error
  duplicate_staff_code invalid_staff_role : Error
  unauthorized forbidden auth_locked_out mfa_required mfa_invalid_code mfa_not_configured : Error
  tenant_not_found tenant_mismatch organization_suspended branch_suspended : Error
  plan_not_found analytics_gated org_plan_not_assigned entitlement_not_found : Error
  subscription_not_found invalid_subscription_transition invoice_not_found
        invalid_invoice_transition :
      Error
  flag_not_found theme_preset_not_found custom_theme_not_entitled invalid_theme_token : Error
  invalid_collateral_config : Error
  staff_analytics_disabled loyalty_disabled loyalty_program_inactive loyalty_insufficient_points
        loyalty_account_not_found invalid_loyalty_request :
      Error
  invalid_phone customer_not_found feature_disabled : Error
  promo_not_found min_order_not_met promo_exhausted promo_already_used promo_phone_required : Error
  internal_error : Error
  no_rows unique_violation check_violation one_non_terminal_violation : Error
