-- ===== src/Service.antt =====
-- service/: the cache, the lease manager and the registration with the mining pool.
pub mod Cache
pub mod LeaseManager
pub mod MiningPool
