-- ===== src/Worker.antt =====
-- backend/internal/worker/worker.go: what the server does by itself. A pass is one tick of a worker that
-- holds its lock.
mod Reaper
mod Sweeps
mod Tables
pub mod Reaping
pub mod Pipeline
pub mod Passes
pub mod Abandoning
unfoldable pub use Reaper.*
unfoldable pub use Sweeps.*
unfoldable pub use Tables.*
