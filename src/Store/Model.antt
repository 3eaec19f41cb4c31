-- ===== src/Store/Model.antt =====
-- The rows of backend/internal/db/sqlc/models.go, with the columns that the modelled code reads or
-- writes. Ids and uuids are naturals; a nullable column is an option; a timestamp is a natural in
-- seconds; an amount of NUMERIC(12,2) is a natural in hundredths.
use Prim.Native.String.{String}
use qr_dining.Base.{ℕ, Bool, Option, List}
use qr_dining.Base.Int.{ℤ}
use qr_dining.Domain.{SessionStatus, PaymentStatus, OrderStatus}

-- The lifecycle status of an organization or a branch; `archived` also stands for any other text.
pub data TenantState : Type 0 where
  active suspended archived : TenantState

pub record Organization : Type 0 where
  pub id : ℕ
  pub status : TenantState

pub record Branch : Type 0 where
  pub id : ℕ
  pub status : TenantState
  pub organization_id : ℕ
  pub restaurant_id : ℕ
  pub session_timeout_minutes : ℕ
  pub branch_code : String
  pub timezone : String
  pub order_prefix : String

pub data TableStatus : Type 0 where
  available occupied reserved : TableStatus

pub record DiningTable : Type 0 where
  pub id : ℕ
  pub branch_id : ℕ
  pub identifier : String
  pub status : TableStatus

-- The strings that `sessionReference` and `paymentReference` format, before formatting.
pub record Reference : Type 0 where
  pub branch_code : String
  pub local_date : ℕ
  pub sequence : ℕ

pub record Session : Type 0 where
  pub id : ℕ
  pub branch_id : ℕ
  pub table_id : ℕ
  pub session_token : String
  pub status : SessionStatus
  pub host_participant_id : Option ℕ
  pub created_at : ℕ
  pub customer_id : Option ℕ
  pub closed_at : Option ℕ
  pub awaiting_reactivation_at : Option ℕ
  pub warned_at : Option ℕ
  pub business_date : ℕ
  pub visit_number : ℕ
  pub session_number : Reference

pub record Participant : Type 0 where
  pub id : ℕ
  pub session_id : ℕ
  pub display_name : String
  pub device_fingerprint : String
  pub is_host : Bool
  pub phone : List ℕ
  pub joined_at : ℕ
  pub last_seen_at : ℕ
  pub credential_version : ℕ
  pub revoked_at : Option ℕ
  pub revoked_reason : Option String

pub data PaymentMethod : Type 0 where
  cash card digital card_manual upi other_method : PaymentMethod

pub record Payment : Type 0 where
  pub id : ℕ
  pub session_id : ℕ
  pub order_id : Option ℕ
  pub amount : ℕ
  pub method : PaymentMethod
  pub status : PaymentStatus
  pub bill_snapshot_id : Option ℕ
  pub branch_id : ℕ
  pub currency : String
  pub provider : Option String
  pub provider_payment_ref : Option String
  pub provider_order_ref : Option String
  pub completed_at : Option ℕ
  pub settled_by_staff_id : Option ℕ
  pub settled_at : Option ℕ
  pub business_date : ℕ
  pub sequence : ℕ
  pub reference : Reference

pub record BillSnapshot : Type 0 where
  pub id : ℕ
  pub session_id : ℕ
  pub branch_id : ℕ
  pub subtotal : ℕ
  pub discount_amount : ℕ
  pub tax_amount : ℕ
  pub service_charge : ℕ
  pub tip_amount : ℕ
  pub total : ℕ
  pub currency : String
  pub source_order_ids : List ℕ
  pub created_by_actor : String

-- What a price is multiplied by: `numerator / denominator` of a float64, which is a fraction.
pub record Rate : Type 0 where
  pub numerator : ℕ
  pub denominator : ℕ

-- The keys of settings_json that the bill reads, decoded; `none` for a key that is missing or has
-- another type.
pub record Restaurant : Type 0 where
  pub id : ℕ
  pub tax_rate : Option Rate
  pub service_charge_rate : Option Rate
  pub include_tax_in_price : Option Bool

pub record MenuItem : Type 0 where
  pub id : ℕ
  pub branch_id : ℕ
  pub name : String
  pub price : ℕ
  pub is_available : Bool

pub record ItemModifier : Type 0 where
  pub id : ℕ
  pub item_id : ℕ
  pub name : String
  pub price_delta : ℤ
  pub modifier_group : String
  pub single_select : Bool

-- services.ModifierSnapshot, which the columns selected_modifiers_json hold as JSON.
pub record ModifierSnapshot : Type 0 where
  pub id : ℕ
  pub name : String
  pub price_delta : ℤ

pub record Cart : Type 0 where
  pub id : ℕ
  pub session_id : ℕ
  pub participant_id : Option ℕ

pub record CartItem : Type 0 where
  pub id : ℕ
  pub cart_id : ℕ
  pub menu_item_id : ℕ
  pub quantity : ℕ
  pub selected_modifiers : List ModifierSnapshot
  pub note : String

pub record Order : Type 0 where
  pub id : ℕ
  pub session_id : ℕ
  pub branch_id : ℕ
  pub placed_by_participant_id : Option ℕ
  pub status : OrderStatus
  pub idempotency_key : String
  pub total_amount : ℤ
  pub created_at : ℕ
  pub updated_at : ℕ
  pub order_number : String
  pub discount_amount : ℤ
  pub order_business_date : ℕ
  pub order_operational_id : String

pub record OrderItem : Type 0 where
  pub id : ℕ
  pub order_id : ℕ
  pub menu_item_id : ℕ
  pub quantity : ℕ
  pub unit_price : ℕ
  pub selected_modifiers : List ModifierSnapshot
  pub note : String

pub data KeyStatus : Type 0 where
  pending completed failed : KeyStatus

-- The scope of an idempotency key (repository.IdempotencyScope); ScopeType is always "session".
pub record IdempotencyScope : Type 0 where
  pub scope_id : ℕ
  pub actor_type : String
  pub actor_id : ℕ
  pub key : String

pub record IdempotencyKey : Type 0 where
  pub scope : IdempotencyScope
  pub request_hash : String
  pub expires_at : ℕ
  pub status : KeyStatus
  pub response_resource_id : Option ℕ

pub record WebhookEvent : Type 0 where
  pub id : ℕ
  pub external_event_id : String
  pub provider : String
  pub event_type : String
  pub processed : Bool
  pub payment_id : Option ℕ
  pub failed : Bool

pub data PromoType : Type 0 where
  flat_amount percentage : PromoType

-- `value` of a percentage is in hundredths of a percent.
pub record Promo : Type 0 where
  pub id : ℕ
  pub branch_id : ℕ
  pub code : String
  pub promo_type : PromoType
  pub value : ℕ
  pub min_order_amount : ℕ
  pub max_uses : Option ℕ
  pub uses_per_phone : ℕ
  pub valid_from : ℕ
  pub valid_until : ℕ
  pub time_window_start : Option ℕ
  pub time_window_end : Option ℕ
  pub is_active : Bool
  pub description : Option String
  pub redeemed_count : ℕ

pub record PromoRedemption : Type 0 where
  pub promo_id : ℕ
  pub payment_id : ℕ
  pub phone : Option (List ℕ)

pub record LoyaltyProgram : Type 0 where
  pub organization_id : ℕ
  pub is_active : Bool
  pub earn_rate_points : ℕ
  pub earn_rate_amount : ℕ

pub record LoyaltyAccount : Type 0 where
  pub id : ℕ
  pub customer_id : ℕ
  pub organization_id : ℕ
  pub points_balance : ℕ
  pub lifetime_points_earned : ℕ
  pub lifetime_points_redeemed : ℕ
  pub visit_count : ℕ
  pub lifetime_spend : ℕ

pub data LoyaltyTxnType : Type 0 where
  earn redeem adjustment : LoyaltyTxnType

-- A signed number of points.
pub data Points : Type 0 where
  plus minus : ℕ → Points

pub record LoyaltyTransaction : Type 0 where
  pub account_id : ℕ
  pub txn_type : LoyaltyTxnType
  pub points : Points
  pub amount : ℕ
  pub payment_id : Option ℕ
  pub session_id : Option ℕ
  pub staff_id : Option ℕ
  pub reason : String

pub data Actor : Type 0 where
  by_participant by_staff by_system : Actor

pub data Event : Type 0 where
  session_created : Session → Participant → Event
  participant_joined : Participant → Event
  session_reactivated session_closed : Event
  host_changed : Participant → Event
  payment_initiated payment_completed : Payment → Event
  payment_cancelled : Payment → Option SessionStatus → Event
  cancellation_logged force_cancellation_logged : ℕ → PaymentStatus → String → Event
  promo_applied : ℕ → String → ℕ → Event
  order_status_changed : ℕ → OrderStatus → Event
  order_placed : Order → Event
  cart_item_added : CartItem → Event
  cart_item_removed : ℕ → Event
  cart_cleared : Event
  session_expiring_soon session_awaiting_reactivation session_abandoned session_reconciled
        table_reconciled :
      Event

-- What leaves the process: a broadcast to the session's channel, a row of event_log (session,
-- branch, actor and what happened), a deleted presence hash, a call of the loyalty hook.
pub data Effect : Type 0 where
  publish : ℕ → Event → Effect
  log_event : ℕ → ℕ → Actor → ℕ → Event → Effect
  presence_deleted : ℕ → Effect
  presence_deleted_scoped : ℕ → ℕ → ℕ → Effect
  accrue_points : Payment → Effect
  audit_webhook_failure : ℕ → ℕ → Effect

-- Redis' reply to HGETALL on a presence hash: the heartbeat of each participant, or an error.
abbrev pub Heartbeats : Type 0
Heartbeats = Option (List (ℕ × ℕ))

-- The cached value of services/tenant_status.go.
pub record TenantStatus : Type 0 where
  pub organization_id : ℕ
  pub organization_status : TenantState
  pub branch_status : TenantState

-- What a SET with a TTL stored: the branch, when it expires, and the value.
pub record CacheEntry : Type 0 where
  pub branch_id : ℕ
  pub expires_at : ℕ
  pub value : TenantStatus

pub record World : Type 0 where
  pub now : ℕ
  pub organizations : List Organization
  pub tenant_cache : List CacheEntry
  pub branches : List Branch
  pub tables : List DiningTable
  pub sessions : List Session
  pub participants : List Participant
  pub payments : List Payment
  pub bill_snapshots : List BillSnapshot
  pub promos : List Promo
  pub promo_redemptions : List PromoRedemption
  pub loyalty_programs : List LoyaltyProgram
  pub loyalty_accounts : List LoyaltyAccount
  pub loyalty_transactions : List LoyaltyTransaction
  pub restaurants : List Restaurant
  pub menu_items : List MenuItem
  pub item_modifiers : List ItemModifier
  pub carts : List Cart
  pub cart_items : List CartItem
  pub orders : List Order
  pub order_items : List OrderItem
  pub order_sequences : List (ℕ × ℕ × ℕ)
  pub idempotency_keys : List IdempotencyKey
  pub webhook_events : List WebhookEvent
  pub session_sequences : List (ℕ × ℕ × ℕ)
  pub payment_sequences : List (ℕ × ℕ × ℕ)
  pub next_id : ℕ
  pub scoped_presence : ℕ → ℕ → ℕ → Heartbeats
  pub unscoped_presence : ℕ → Heartbeats
  pub effects : List Effect

-- What the services are configured with, and what they take from the platform: `local_date` stands for
-- branchBusinessDate (services/operational_ids.go), the day number of a time in a time zone, which
-- Go's time package computes; `time_of_day` and `lower` for what PostgreSQL computes in a query, the
-- seconds since midnight of a time in a time zone and LOWER. `sprint_number` and `sprint_order` are
-- fmt.Sprintf with the formats "%s%d" and "%s-%s-%s" of an order's two names, the date among them.
-- `percent_of` and `at_rate` are round2 of a float64 product, in cents: `orderTotal * value / 100` of a
-- total in cents and a percentage in hundredths, and `subtotal * rate`. Which of two cents a product
-- next to a half is rounded to is up to the representation of its factors.
pub record Config : Type 0 where
  pub host_absence_grace : ℕ
  pub local_date : String → ℕ → ℕ
  pub time_of_day : String → ℕ → ℕ
  pub lower : String → String
  pub sprint_number : String → ℕ → String
  pub sprint_order : String → ℕ → String → String
  pub percent_of : ℕ → ℕ → ℕ
  pub at_rate : Rate → ℤ → ℤ
