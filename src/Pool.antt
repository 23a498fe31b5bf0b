-- ===== src/Pool.antt =====
-- common/ItemPool.h
pub mod Items
pub mod Shared
