-- ===== src/Tests.antt =====
-- Concrete runs of the program's parts, with the theorems applied to them.
mod Fixture
mod Attest
mod Tokens
mod Consent
mod Missions
mod Store
mod Server
mod Resd
mod Welcome
mod Asked
mod Progress
mod Moves
mod Testutil
mod Devtool
