-- ===== src/Conversion.antt =====
-- The conversion webhooks: apis/serving/v1alpha3, v1alpha2 and v1alpha1/bentodeployment_conversion.go,
-- and apis/serving/conversion/conversion.go.
pub mod Hpa
pub mod Parts
pub mod Names
pub mod V1alpha3
pub mod Older
pub mod Resources
