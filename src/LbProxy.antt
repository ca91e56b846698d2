-- ===== src/LbProxy.antt =====
-- internal/lbproxy: the health of backends and the balancer among them.
pub mod Target
pub mod Group
pub mod Config
mod Examples
