-- ===== src/Resd.antt =====
-- cmd/resd/main.go: the resource server. It asks the web for the keys of an issuer and for the
-- attestations that a token names, keeps the ids of the tokens that it has seen, and admits an agent
-- by its token. An argument `now` is what the clock reads during the call; the flags of the command
-- are the fields of a resource.
pub mod Refs
pub mod Resolvers
pub mod Handlers
pub mod Welcome
