-- ===== src/Tests.antt =====
-- The definitions run on concrete inputs, and the theorems applied to them.
pub mod Codec
pub mod Paths
pub mod Firmware
pub mod Instances
pub mod Objects
pub mod Client
pub mod Registration
pub mod Transport
pub mod Wire
pub mod Example
pub mod Network
pub mod Downloader
