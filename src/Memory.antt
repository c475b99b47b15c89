-- ===== src/Memory.antt =====
-- The storage of the directory memory/: so far the translation of expressions to predicates.
pub mod Wildcard
pub mod Expr
