-- ===== src/Session.antt =====
-- backend/internal/services/session.go and session_close.go: the life of a dining session.
mod Settings
mod Host
mod Entry
mod Close
pub mod Closing
pub mod Absence
pub mod Authority
unfoldable pub use Settings.*
unfoldable pub use Host.*
unfoldable pub use Entry.*
unfoldable pub use Close.*
