-- ===== src/Format/Tests.antt =====
-- The theorem on labels at a concrete identity.
