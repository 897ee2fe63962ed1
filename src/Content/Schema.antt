-- ===== src/Content/Schema.antt =====
-- The platform tables of appdb/init/02_platform_bootstrap.sql that the repository writes, with the
-- keys that the server checks, and the statements of repository.go on them. A display order is an
-- integer that the seed and every writer keep at 0 or above, and stands as a number.
mod Rows
mod OfCampaigns
mod OfSubscribers
unfoldable pub use Rows.*
unfoldable pub use OfCampaigns.*
unfoldable pub use OfSubscribers.*
