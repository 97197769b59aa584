-- ===== src/Model.antt =====
-- internal/model: the registry of models, with its table and service.
pub mod Store
pub mod Service
pub mod Registry
