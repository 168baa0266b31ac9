-- ===== src/Timeline.antt =====
-- internal/timeline: repository.go, service.go and handler.go.
pub mod Repository
pub mod Service
pub mod Pages
pub mod Cursor
pub mod Paging
pub mod Home
pub mod Cached
pub mod Found
pub mod Bounds
pub mod Handler
