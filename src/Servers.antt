-- ===== src/Servers.antt =====
-- webui/frontend/src/pages/probe/useServers.ts: the server library's query and its copy in the URL,
-- the pages behind a cursor, the three requests that race, and the selection across pages.
pub mod Tests
pub mod Query
pub mod Update
pub mod Address
pub mod Cursor
pub mod Selection
pub mod Requests
