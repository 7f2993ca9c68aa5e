-- ===== src/Metering.antt =====
-- Ingest metering: metering.py and the dispatch to Stripe of billing/stripe_client.py.
pub mod Field
pub mod FieldLaws
pub mod Counters
pub mod Flush
pub mod Batches
pub mod Conservation
pub mod Examples
