-- ===== src/Instr/Branch/Tests.antt =====
-- The theorems on branches at sample instructions.
