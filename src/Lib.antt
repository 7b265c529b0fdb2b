-- ===== src/Lib.antt =====
-- warden.md issues short-lived credentials that an agent may use once, and closes them with evidence
-- when the delegated work is done. This library models two of its packages.
--
-- packages/broker (module Broker). An agent proposes a grant (`Broker.exchange` of
-- packages/broker/src/broker.ts); the authority and the policy decide; an operator may have to
-- `approve`; a resource server calls `consume` once with the credential and a DPoP proof; `complete`,
-- `revoke` or expiry finalizes the grant, writes evidence and delivers revocations.
--   Broker/Types, Broker/Errors      packages/broker/src/types.ts, errors.ts
--   Broker/Policy, Broker/Authority  policy.ts, authority.ts
--   Broker/Store, Broker/Store/Snapshot  store.ts: one map of the class is one field; `createExchangeGrant`
--                                    is `create_exchange_grant`, and so on for every method
--   Broker/Crypto (Capability, Dpop, Replay) crypto.ts: capability tokens, DPoP proofs and the
--                                    replay table
--   Broker/Core                      the fields of `Broker` and its small private methods
--   Broker/Exchange, Approve, Consume, Finalize, Complete   the operations of broker.ts
--   Broker/Ledger, Broker/Invariant  what each operation leaves alone; the well-formedness of a state
--   Broker/Run                       histories: any list of operations from any state
--   Broker/Operations                single operations on success and on error
--   Broker/Worker (Steps, Approval)  worker.ts: the routes of `createBrokerWorker`
--   Broker/Middleware (Node, Once, Agree) middleware.ts: the guards before a protected handler, for
--                                    Workers and for Node
--
-- packages/service (module Service). `AgentAuthService` of packages/service/src/service.ts registers
-- identities of agents, exchanges assertions and claims for access tokens, validates and revokes
-- these, and delivers and receives security events. Its claim ceremony (claim.ts) links a device to a
-- person: `start`, `verifyUserCode`, `decide`, `poll`, `consumeApprovedClaim`.
--   Service/Types, Service/Errors    packages/service/src/types.ts, errors.ts
--   Service/Code                     `codeFromIdentifier` of claim.ts
--   Service/RateLimit                `FixedWindowRateLimiter` of rate-limit.ts
--   Service/Store                    `InMemoryServiceStore` of repository.ts, without its claims
--   Service/Claim                    `ClaimCeremony` with the claims of `InMemoryServiceStore`
--   Service/Claim/Ticks              the count of clock readings
--   Service/Claim/Interleaving       requests that overlap, as a relation between states
--   Service/ClaimState (Expiry, Schedule, Alarm, Refinement) `DurableObjectClaimState` of
--                                    repository.ts: its index, its alarm, and its agreement with the
--                                    claims in memory
--   Service/Encoding, Encoding/Compare   encoding.ts: scopes as text, the comparison of secrets
--   Service/Json                     the values of `JSON.parse`, and the tests that the code makes
--   Service/Jose (Verify, Keys)      jose.ts: `signJwt`, the parts of `verifyJwt`, trusted keys
--   Service/Agent                    service.ts: the fields and the small methods of
--                                    `AgentAuthService`, and `verifyJwt` over its state
--   Service/Agent/Setup              `AgentAuthService.create` and the metadata of the resource
--   Service/Agent/Register (Bounds, Attempts) `registerIdentity` and the record of every attempt
--   Service/Agent/Claims             the methods over the claim ceremony
--   Service/Agent/Exchange (Authorized, Consumption, Issued, Once, Single) `exchangeToken`: who may exchange,
--                                    and a claim grant that comes twice
--   Service/Agent/Tokens (Validity, Later, Revocation) `validateAccessToken`, `revoke`,
--                                    `issueIdentityAssertion`
--   Service/Agent/Events (Delivery, Replay) `subscribe`, `deliverDueEvents`, `receiveSecurityEvent`
--   Service/Router (Routes, Answers) router.ts: `createRouter`, its bodies, endpoints, dispatch and
--                                    answers
--   Service/Agent/Quiet, Still, Scopes what leaves the store alone; the comparisons of scopes
--
-- How the code is read. A method is a function from the state to a result or an error code and the
-- new state; what was written before a throw stays written. `Map` is an association list in insertion
-- order. Readings of the clock and random identifiers are streams indexed by how many were taken, so
-- that each reading of the source is one step of the model. WebCrypto, URL parsing, JSON and
-- base64url, the authority service and the revocation transport are parameters (`Deps`, `WebCrypto`,
-- `ClaimDeps`, `JoseDeps`, `AgentDeps`). Signing, hashing, the clock and the limiter's map are total functions: that a call of
-- them may reject is not modelled; decoding, verification, resolution and delivery may fail. Where a
-- statement says so, no two draws of identifiers agree. Times are natural numbers of milliseconds; a difference that may be negative in
-- the source is compared by moving a term to the other side. The claim `iat` of a DPoP proof is a
-- natural number where it is a number at all. Copies (`structuredClone`, spreads) are the value.
--
-- In the service an awaited authenticator, key resolver or fetch is a function of the number of clock
-- readings before it, a `CryptoKey` is a number, and the service and its ceremony share one clock and
-- one generator. A JSON number is an integer, a negative one or a fraction; a negative `exp`, `iat` or
-- `nbf` reads as 0, which every comparison with a clock reading treats alike. The names that a plain
-- object inherits are listed where the code looks a key up in one. `revoke` is the one method whose
-- throw is not an `OAuthError`: it reads a member of `null` (`TypeFault`).
--
-- The storage of the object that owns claims is one map for each kind of key. The kinds never meet:
-- the generator's identifiers start with "claim_", and a hash is base64url, without a colon.
--
-- Locks of the broker: the body of each `withLock` call runs as one transition, and an operation of
-- the broker as one step of a history; only the claim ceremony is modelled with overlapping requests.
-- There a step is one read, or all that follows a read: that part writes at most once, by a
-- `compareAndSet` that no other request can divide. A read gives the record that is stored under the
-- claim's identifier. No definition needs fuel: all loops run over lists.
--
-- The broker's worker takes the body of a request as the route casts it, with `none` where parsing it
-- throws; bodies of another shape are not modelled.
--
-- In the router a request is its method and path, its body as JSON and as a form, and the two headers
-- that the rate limit reads; headers of answers are left out, and a document is its name. The URL of a
-- request parses, and the origin of a URL is a parameter.
--
-- Not modelled: the HTTP layers (client.ts, runtime.ts, `createWorker` of router.ts, the Durable
-- Objects), the SQL repositories, the generation and import of private keys, the constant documents
-- `authMd` and `authorizationServerMetadata`, `Es256CapabilityVerifier`, the filter of
-- `dpopReplayEntries` in the constructor of `Broker`, the field `idempotencyKey` that the stored
-- grant carries and nothing reads, and packages/cli.
pub mod Common
pub mod Broker
pub mod Service
