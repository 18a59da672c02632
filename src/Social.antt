-- ===== src/Social.antt =====
-- app/enrichment/social: finding the social profiles of a business.
pub mod Confidence
pub mod Normalizer
pub mod Links
pub mod Fetchers
pub mod Fallback
pub mod Discovery
