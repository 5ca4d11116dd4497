-- ===== src/Instr/Jump/Tests.antt =====
-- The theorems on the jumps at a sample instruction, and runs of the handlers.
