-- ===== src/Config.antt =====
-- backend/internal/config: the broker's configuration. The data stands in the child Types; the other
-- children have the wake schedule and the validation.
pub mod Types
pub mod Wake
pub mod Grid
pub mod Sleep
pub mod Checks
pub mod Encodings
pub mod Validate
pub mod WellFormed
pub mod Edits
