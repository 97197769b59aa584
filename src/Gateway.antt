-- ===== src/Gateway.antt =====
-- internal/gateway: what a gateway serves to agents and to the control plane.
pub mod AgentService
pub mod Autonomy
pub mod Dispatcher
pub mod IdentityCache
pub mod Registry
pub mod Cache
pub mod SelfRegister
pub mod AdminAuth
pub mod Artifacts
