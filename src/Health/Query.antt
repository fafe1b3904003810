-- ===== src/Health/Query.antt =====
-- internal/app/health/service_query.go: the paged lists and the list of issues, and the page
-- parameters of handlers/query/query.go.
pub mod Pages
pub mod Lists
pub mod Issues
