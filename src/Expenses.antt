-- ===== src/Expenses.antt =====
-- src/modules/expenses: the expenses of an event and the summary of its budget.
pub mod Sums
pub mod Domain
pub mod Store
pub mod UseCases
pub mod Laws
mod Tests
