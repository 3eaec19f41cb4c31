-- ===== src/Tests/Fixtures.antt =====
-- A small restaurant: one branch, one occupied table, a session with two guests.
use qr_dining.Base.{ℕ, ◌/◌, ◌+◌, ◌*◌, ◌%◌, true, false, none, some, List, [], ◌∷◌}
use qr_dining.Base.Int.{round_div}
use qr_dining.Domain.{active}
use qr_dining.Store.{
  World, Session, Participant, Branch, Organization, DiningTable, TableStatus, TenantState,
  Reference,
}
use qr_dining.Session.{Config}

abbrev pub config : Config
config = record {
  host_absence_grace = 180;
  local_date = λ zone now. now / 86400;
  time_of_day = λ zone now. now % 86400;
  lower = λ text. text;
  sprint_number = λ prefix n. prefix;
  sprint_order = λ code date number. number;
  percent_of = λ total value. (total * value + 5000) / 10000;
  at_rate = λ rate amount. round_div amount rate.numerator rate.denominator;
}

abbrev pub number : Reference
number = record { branch_code = "MG"; local_date = 0; sequence = 1 }

abbrev pub dinner : Session
dinner = record {
  id = 100;
  branch_id = 10;
  table_id = 5;
  session_token = "secret";
  status = active;
  host_participant_id = some 201;
  created_at = 500;
  customer_id = some 77;
  closed_at = none;
  awaiting_reactivation_at = none;
  warned_at = none;
  business_date = 0;
  visit_number = 1;
  session_number = number;
}

abbrev pub host : Participant
host = record {
  id = 201;
  session_id = 100;
  display_name = "Asha";
  device_fingerprint = "d1";
  is_host = true;
  phone = [];
  joined_at = 500;
  last_seen_at = 900;
  credential_version = 1;
  revoked_at = none;
  revoked_reason = none;
}

abbrev pub guest : Participant
guest = record host {
  id = 202;
  display_name = "Ravi";
  device_fingerprint = "d2";
  is_host = false;
  joined_at = 510;
}

abbrev pub branch : Branch
branch = record {
  id = 10;
  status = TenantState.active;
  organization_id = 1;
  restaurant_id = 1;
  session_timeout_minutes = 120;
  branch_code = "MG";
  timezone = "Asia/Kolkata";
  order_prefix = "A";
}

abbrev pub org : Organization
org = record { id = 1; status = TenantState.active }

abbrev pub table : DiningTable
table = record { id = 5; branch_id = 10; identifier = "T5"; status = TableStatus.occupied }

abbrev pub beats : List (ℕ × ℕ)
beats = (201, 995) ∷ (202, 998) ∷ []

abbrev pub world : World
world = record {
  now = 1000;
  organizations = org ∷ [];
  tenant_cache = [];
  branches = branch ∷ [];
  tables = table ∷ [];
  sessions = dinner ∷ [];
  participants = host ∷ guest ∷ [];
  payments = [];
  bill_snapshots = [];
  promos = [];
  promo_redemptions = [];
  loyalty_programs = [];
  loyalty_accounts = [];
  loyalty_transactions = [];
  restaurants = [];
  menu_items = [];
  item_modifiers = [];
  carts = [];
  cart_items = [];
  orders = [];
  order_items = [];
  order_sequences = [];
  idempotency_keys = [];
  webhook_events = [];
  session_sequences = [];
  payment_sequences = [];
  next_id = 1000;
  scoped_presence = λ o b s. some beats;
  unscoped_presence = λ s. some [];
  effects = [];
}

-- The host has been away for longer than the grace.
abbrev pub world_without_host : World
world_without_host = record world {
  now = 2000;
  scoped_presence = λ o b s. some ((201, 995) ∷ (202, 1998) ∷ []);
}
