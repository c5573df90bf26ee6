-- ===== src/Catalogue.antt =====
-- Stored models: pkg/query/query.go, which builds filters, and the reads of
-- infra/repository/repo/model/sys_model_impl.go.
pub mod Query
pub mod Models
pub mod Filters
pub mod Selection
