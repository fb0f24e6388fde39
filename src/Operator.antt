-- ===== src/Operator.antt =====
-- The program around the reconcilers: internal/operator/operator.go and main.go,
-- cmd/operator/operator.go, and the seven reconcilers together.
pub mod Controllers
pub mod History
pub mod Removal
pub mod Creation
pub mod Convergence
pub mod Host
pub mod Startup
pub mod Register
pub mod Kinds
pub mod Commands
pub mod Cli
pub mod Registers
