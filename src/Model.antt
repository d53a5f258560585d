-- ===== src/Model.antt =====
-- internal/model/types.go: the domain types that the store and the API layers pass around, and the
-- rules for names and keys.
mod Types
pub mod Names
unfoldable pub use Types.*
