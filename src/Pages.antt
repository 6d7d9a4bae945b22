-- ===== src/Pages.antt =====
-- The pages of webui/frontend/src/pages.
pub mod Candidates
pub mod CreateInstance
pub mod Detail
pub mod Jobs
pub mod LbPage
pub mod TestNodes
pub mod SavedViews
pub mod Workspace
pub mod TestCreate
