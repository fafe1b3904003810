-- ===== src/Health/Tests.antt =====
-- Concrete runs of the health components: a table that keeps its laws, a sort, answers to queries,
-- and the theorems at them.
mod Rows
mod Queries
mod Lists
