-- ===== src/Api.antt =====
-- The resource types of apis/serving, and what of the Kubernetes types they are made of.
pub mod Consts
pub mod Kube
pub mod Pods
pub mod Common
pub mod Resources
pub mod Yatai
pub mod V2alpha1
pub mod V1alpha3
pub mod V1alpha2
pub mod V1alpha1
