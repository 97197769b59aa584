-- ===== src/Deployment.antt =====
-- internal/deployment: model deployments, their rollout, and the controller that carries them out.
pub mod Json
pub mod Rollout
pub mod Store
pub mod Controller
pub mod Service
