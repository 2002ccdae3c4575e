-- ===== src/Credit.antt =====
-- User balances and their ledger (services/main-api/internal/credit and its SQL statements).
pub mod Queries
pub mod Repo
pub mod Books
