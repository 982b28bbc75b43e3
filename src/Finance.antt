-- ===== src/Finance.antt =====
-- pycroft/lib/finance/transaction_crud.py with the transactions of pycroft/model/finance.py: double
-- entry book-keeping, the import of bank statements, since when an account is in default,
-- and the memberships of those who were.
pub mod Model
pub mod Ops
pub mod Balance
pub mod Valid
pub mod Import
pub mod Reimport
pub mod Overdue
pub mod History
pub mod Debt
pub mod Ending
mod Tests
