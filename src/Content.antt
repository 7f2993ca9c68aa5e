-- ===== src/Content.antt =====
-- Sealed secrets, vargate_telemetry/crypto, and the deletion of captured content,
-- vargate_telemetry/content_deletion.py.
pub mod Seal
pub mod SealLaws
pub mod View
pub mod Refinement
pub mod Refined
pub mod Toy
pub mod Shredded
pub mod SealExamples
pub mod Deletion
pub mod Events
pub mod DeletionLaws
pub mod DeletionExamples
