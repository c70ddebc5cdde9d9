-- ===== src/Eval.antt =====
-- The accuracy harness (eval/run.py and eval/catalog.py): incidents that are built to fail in a known
-- way, and the scores of the ledger's rows against them.
pub mod Catalog
pub mod Judge
pub mod Score
pub mod Resume
pub mod Collect
pub mod Report
