-- ===== src/User.antt =====
-- The user service (internal/user), layer by layer.
pub mod Statements
pub mod Repository
pub mod Follows
pub mod Counters
pub mod Repeats
pub mod Graph
pub mod Sequences
pub mod Profile
pub mod Service
pub mod Handler
pub mod Accounts
pub mod Admission
