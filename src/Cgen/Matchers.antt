-- ===== src/Cgen/Matchers.antt =====
-- src/bpfilter/cgen/matcher/: the code that is generated for a matcher.
pub mod Transport
pub mod Meta
pub mod Ip4
pub mod Ip6
pub mod Sets
pub mod Ports
