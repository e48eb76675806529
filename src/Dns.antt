-- ===== src/Dns.antt =====
-- internal/dns: the query and the answer on the wire (dns.go), the resolver with its cache, its
-- monitor, and the client for DNS over HTTPS (doh.go). The network is an argument: what a name
-- server or a provider answers to a name.
pub mod Wire
pub mod Query
pub mod Response
pub mod Offset
pub mod Resolver
pub mod Cached
pub mod Tests
