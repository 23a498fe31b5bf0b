-- ===== src/Capture.antt =====
-- The way of a capture request into the HAL: streams, requests and the request thread (AAL).
pub mod Stream
pub mod Request
pub mod Thread
pub mod Hal
