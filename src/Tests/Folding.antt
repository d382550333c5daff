-- ===== src/Tests/Folding.antt =====
-- Folded constants.
