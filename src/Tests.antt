-- ===== src/Tests.antt =====
-- Tests of the definitions, and the theorems applied to concrete data.
pub mod Fixtures
pub mod Store
pub mod Services
pub mod Components
pub mod Autoscaling
pub mod Routes
pub mod Conversions
pub mod CleanUp
pub mod Status
pub mod Requests
pub mod Pods
pub mod Failures
pub mod PodFixtures
pub mod Templates
pub mod Deployments
pub mod Reconcile
pub mod Placement
