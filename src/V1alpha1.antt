-- ===== src/V1alpha1.antt =====
-- The older version of the API, api/v1alpha1/. What the two versions declare word for word alike, the types
-- below the specs of the components and the checks on them, stands in Api and Webhook.
pub mod Types
pub mod Default
pub mod Validate
pub mod Upgrade
pub mod Agreement
pub mod Tests
