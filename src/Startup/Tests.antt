-- ===== src/Startup/Tests.antt =====
-- The theorem on `initialize` at the code segment's selector.
