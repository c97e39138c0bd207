-- ===== src/Api.antt =====
-- The API types of operator/api/v1alpha1 and the parts of k8s.io/apimachinery that they use.
pub mod Phase
pub mod Condition
pub mod Environment
pub mod Equality
