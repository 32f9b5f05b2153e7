-- ===== src/Resolver.antt =====
-- internal/resolver/resolver.go: the resolution of names, with its cache.
-- The query of the database and `json.Unmarshal` are parameters; the clock is an argument.
pub mod Record
pub mod Cache
pub mod Input
pub mod Lookup
pub mod Metadata
mod Tests
