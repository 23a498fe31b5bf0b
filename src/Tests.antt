-- ===== src/Tests.antt =====
-- Runs of the modelled code on concrete inputs.
pub mod Flow
pub mod Handlers
pub mod Parts
pub mod Nodes
pub mod Errors
pub mod Capture
pub mod Devices
pub mod Shared
pub mod Links
pub mod Post
pub mod Gcss
