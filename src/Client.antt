-- ===== src/Client.antt =====
-- The world that the reconcilers act on: errors, the calls that change something, the services
-- that answer, and the monad of a reconciliation.
mod Errors
mod Calls
mod Services
mod Monad
pub use Errors.*
pub use Calls.*
pub use Services.*
pub use Monad.*
