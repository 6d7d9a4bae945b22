-- ===== src/Toml.antt =====
-- webui/frontend/src/lib/proxyToml.ts: the proxies section of an frpc.toml file and the whole file
-- of the create form, read into drafts, written back and validated.
pub mod Value
pub mod Draft
pub mod Validate
pub mod Config
pub mod Tests
