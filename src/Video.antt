-- ===== src/Video.antt =====
-- common/v4l2dev/v4l2device.h and common/v4l2dev/v4l2videonode.cpp: V4L2 video nodes.
pub mod Buffer
pub mod Format
pub mod Node
