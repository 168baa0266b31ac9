-- ===== src/Tweet.antt =====
-- The tweet service (internal/tweet), by its parts.
pub mod Statements
pub mod Repository
pub mod Fanout
pub mod Aggregator
pub mod Service
pub mod Likes
pub mod Strong
pub mod Eventual
pub mod Handler
pub mod Creation
pub mod Queueing
pub mod Deletion
pub mod Partial
