-- ===== src/Session/Settings.antt =====
-- The helpers that the files of the session service share.
use qr_dining.Base.{ℕ, Bool, false, Option, none, some, ◌==◌}
use qr_dining.Store.{Session}
pub use qr_dining.Store.{Config}

-- `v.Valid && v.Int64 == id`
abbrev pub is_id : Option ℕ → ℕ → Bool
is_id none id = false
is_id (some v) id = v == id

-- The copy of a session without the guest credential.
unfoldable pub credential_safe_session : Session → Session
credential_safe_session s = record s { session_token = "" }
