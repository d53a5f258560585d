-- ===== src/Store/Search.antt =====
-- internal/store/sqlite.go: how SearchRuns and SearchExperiments turn filters, orders and page tokens
-- into SQL. A filter is read as ASCII text: its letters are folded one by one.
pub mod Texts
pub mod Values
pub mod Filter
pub mod Templates
pub mod Order
pub mod Query
pub mod Tests
