-- ===== src/Pricing.antt =====
-- The rate cards and the cost estimate of vargate_telemetry/pricing/.
pub mod Rates
pub mod Anthropic
pub mod OpenAi
pub mod Vertex
pub mod Lookup
pub mod Cost
pub mod Cards
pub mod Tiers
pub mod VendorCost
pub mod Examples
