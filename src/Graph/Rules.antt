-- ===== src/Graph/Rules.antt =====
-- The rules under packages/graph/src/rules.
pub mod DbSpof
pub mod StorageNoCdn
pub mod ClientDirectDb
pub mod QueueNoDlq
pub mod ReadPathNoCache
pub mod NoLoadBalancer
pub mod Disconnected
