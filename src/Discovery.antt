-- ===== src/Discovery.antt =====
-- app/discovery/google_maps: finding the businesses.
pub mod Scroll
pub mod Cards
pub mod BrowserManager
pub mod BrowserPool
pub mod Run
