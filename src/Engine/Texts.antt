-- ===== src/Engine/Texts.antt =====
-- The text of what a failed terminal of include/peglib/Terminals.h says was expected.
