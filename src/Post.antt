-- ===== src/Post.antt =====
-- The post-processing pipeline of psl/rkisp1/workers/PostProcessPipeline.cpp and .h.
pub mod Unit
pub mod Sync
pub mod Pipeline
pub mod Types
pub mod Links
