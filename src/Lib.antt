-- ===== src/Lib.antt =====
-- signet-ps: a person server that mints authorization tokens for agents without custody of anyone's
-- identity. A person's root key signs a PersonServerAuthorization, which says what a server's issuer
-- key may mint, and an AgentGrant for each agent; a resource that verifies a token follows the chain
-- from the root to the server's key, the token, the agent's key and the request.
--
-- The parts, and where they are modelled:
--   * Attest: internal/attest/psa.go. The two attestations (Attest), their EIP-712 typed data and
--     digests (Digest), the hash of a signed blob (Content), addresses (Address), and VerifyPSA and
--     VerifyAgentGrant (Verify).
--   * Tokens: internal/tokens. The claim shapes and thumbprints (Tokens), signJWT and
--     parseAndCheckSig (Jwt, with encoding and decoding of the claims in Jwt/Claims), Mint (Mint),
--     and Verify, VerifyVanilla and verifyLayer1 (Verify).
--   * Consent: internal/consent/consent.go. ApprovalDigest and verifyEOASig (Digest, and what
--     they say of a signature in Digest/Meaning), the store of requests (Store), and calls in flight
--     at the same time (Concurrent), whose steps are the critical sections under the store's mutex.
--   * Missions: internal/missions/missions.go. The hash chain of each agent's interactions.
--   * Store: internal/store. The registry in memory (Registry), and the tenants (Tenants).
--   * Server: internal/server. The state of a server (State), helpers.go (Helpers), the handlers of
--     token, poll and the two approvals (Handlers), onboarding, enrollment and what is served
--     (Lifecycle), the documents for verifiers (Pages), and the requests by the handlers that serve
--     them (Routes). Stable is the induction over the requests that a server serves, for what
--     concerns its tenants, and History what becomes of their logs; Moves reads each handler as calls
--     of the store of requests, for what concerns both.
--   * Resd: cmd/resd/main.go, the resource server: splitRef and bearer (Refs), the resolvers and the
--     replay cache (Resolvers), and challenge and whoami (Handlers). The web is a function from a URL
--     to the JSON value that it answers with status 200. Handlers/Asked follows a challenge to the
--     server, Welcome a token from the server that issues it to the resource.
--   * Devtool: cmd/devtool/main.go, the stand-in for a person's wallet (Devtool), and that its
--     signatures are taken (Accepted). A root's private key and its signer are a record of functions.
--   * Dev: internal/server/dev.go and the revocation endpoint of cmd/psd/auth_dev.go, which a build
--     with the tag dev has.
--   * Psd: cmd/psd/main.go, what the daemon puts together at its start.
--   * Testutil: internal/testutil. The keys (Keys), the documents signed with options (Fixtures), the
--     fakes of the interfaces that verifiers ask (Registry, Resolvers), and compact tokens of any
--     header (Jwts); and what the verifiers of the other parts make of them. A private key is a
--     record of functions, and a helper that ends the test answers none.
--   * Base and Std: the helpers that the parts share, and what they use of Go's standard library:
--     decimal, hex and base64 text, strings, maps.
--   * Env: what is not code of the repository, as a record of functions that every part is given:
--     the hashes, Ed25519, recovery of a secp256k1 key, EIP-712 hashing, the text of a JSON value and
--     of a time, and the Unicode tables. Env/Decode is the decoding of a JSON value into a struct.
--   * Tests: runs at concrete inputs.
--
-- How code becomes definitions. A struct is a record, a string or a slice of bytes a list of codes,
-- a slice that may be nil an Option of a list. An int64 is an integer, with its wrap-around written
-- out where the code multiplies or subtracts; a big.Int is an integer; a time is nanoseconds since
-- the Unix epoch, within the range of Go's clock. A function that answers an error answers a Result
-- whose errors are data, one for each error of the source. Objects that maps and callers point to
-- lie in a heap, a list, and a pointer is a place there. A Go map is an association list. A clock
-- reading and random bytes are arguments. A handler of the server runs whole, at one clock reading;
-- Consent/Concurrent has the interleavings of the store that the handlers share. There is no fuel:
-- every loop of the source runs over a list or a number of places.
--
-- Not modelled: the text of errors and of HTTP replies, and the decoding of request bodies, which
-- the handlers take decoded; the matching of a URL with a route, which net/http does; listening and
-- logging, the production build of psd, which panics before it listens, and the parsing of command
-- lines; of devtool the files and the call of revoke; attest.SuccessorStatement,
-- which nothing uses. encoding/json keeps decoding after a field of a wrong type and then reports an
-- error: the model reports it and drops what was decoded, as the callers do. Where the key of an array
-- occurs twice in an object, encoding/json decodes the second array into the elements of the first;
-- the model starts from empty ones. ed25519.Sign panics at a private key that has not 64 bytes: Mint
-- asks for the size, and the keys that resd and the test fixtures sign with have it, since
-- GenerateKey and NewKeyFromSeed make them.
pub mod Base
pub mod Std
pub mod Env
pub mod Attest
pub mod Consent
pub mod Missions
pub mod Testutil
pub mod Tokens
pub mod Store
pub mod Server
pub mod Psd
pub mod Resd
pub mod Devtool
pub mod Dev
pub mod Tests
