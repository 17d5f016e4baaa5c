-- ===== src/Testutil.antt =====
-- internal/testutil: the keys, fixtures and fakes that the repository's test suites share. A call of
-- tb.Fatalf is `none`. The private keys are taken with the functions that make keys of them.
pub mod Keys
pub mod Fixtures
pub mod Registry
pub mod Resolvers
pub mod Jwts
