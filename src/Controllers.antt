-- ===== src/Controllers.antt =====
-- The reconciler's methods, controllers/*.go.
pub mod Debug
pub mod Labels
pub mod Names
pub mod Objects
pub mod Resources
pub mod Service
pub mod OldHpa
pub mod Hpa
pub mod Ingress
pub mod CleanUp
pub mod Status
pub mod Pods
pub mod Deployments
pub mod Reconcile
pub mod Watches
pub mod Timers
