-- ===== src/Lib.antt =====
-- A verification of the EigenX KMS node (Go): a threshold key-management service whose operators
-- share a master secret, hand out shares of it to attested applications, and reshare it among
-- themselves at every interval of blocks.
--
-- The parts and how they interact. At every interval of blocks the scheduler starts a protocol, whose
-- messages a session collects. A node keeps the versions of its key share in a key store
-- (pkg/keystore/keystore.go) and persists them (pkg/persistence). At a reshare it finds the dealers of
-- the round from the operator set and the commitment registry on chain (pkg/node/node.go), keeps
-- those whose source version is bound to the chain and agrees with most of the others
-- (pkg/reshare/reshare.go), and stores the new version. A round that fails the check of the master
-- public key is counted, and a source version that fails again and again is poisoned and rolled back
-- (pkg/node/autoheal.go).
--
-- The files.
--   Prelude: numbers, tests, lists, maps, sorting and bytes that the parts share.
--   Types, Peering: the records of pkg/types, pkg/peering and the curve types of pkg/config.
--   KeyStore: pkg/keystore/keystore.go, one function per method. The versions are objects of a store,
--     since the pointers of the key store alias one another. Flags, Reachable, Lookup and Poison hold
--     the proofs.
--   Persistence: the records and the interface of pkg/persistence. Persistence/Memory is
--     pkg/persistence/memory/memory.go, one function per method, and Contract fills the interface.
--   AutoHeal: pkg/node/autoheal.go as a client of the interface of Persistence.
--   Field: the field of scalars as an interface, with sums and products. Polynomial:
--     pkg/bls/polynomial.go, its commitments in Commitments. Curve: the groups as an interface,
--     pkg/bls/operations.go and the same operations on compressed bytes of pkg/crypto/bls.go.
--   Dkg: pkg/dkg/dkg.go. Refresh: the protocol of pkg/reshare/reshare.go and its check of the master
--     public key. Recovery: the keys that pkg/crypto/bls.go recovers. Ibe: its encryption for an
--     application, with the pairing, HKDF and AES-GCM in the record Ciphers. Signing: SignAppID
--     of pkg/node/node.go over the key store, Signing/Floor what it answers after a rollback. Merkle: pkg/merkle/merkle.go, over the trees of go-merkletree,
--     the record Trees; an index of a leaf is a natural number, so a negative one is not modelled.
--   Crypto: the hashed and signed byte strings of pkg/crypto/bls.go and pkg/node/node.go.
--   Reshare: SelectMajoritySourceVersion of pkg/reshare/reshare.go, CalculateThreshold of
--     pkg/dkg/dkg.go.
--   Dealers: the operator-set checks, expectedReshareDealers, resolveCutoffL2 and deriveAgreedDealerSet of
--     pkg/node/node.go, VerifyDealerSourceVersions of pkg/reshare/reshare.go.
--   Session: ProtocolSession of pkg/node/node.go with its handlers, and the shares that outlive it;
--     Table has the table of sessions, Waits the waits, Verify the check of a dealer's broadcast.
--   Scheduler: checkScheduledOperations of pkg/node/node.go, with the intervals of pkg/config/config.go
--     in Config. Restore: RestoreState of pkg/node/node.go.
--   Tests: the theorems at concrete inputs.
--
-- Conventions. An int64 is an integer, and a statement that needs its range says so. An error is a
-- constructor that carries what the message names; logging is left out. A method that holds a lock
-- is one step. The iteration order of a Go map is an argument, and a theorem ranges over it. SHA-256,
-- Keccak-256, the encoding of field elements and the reads of the chain are arguments. Loops are
-- structural recursion; a polling loop runs over the list of its attempts, and the list ends where
-- the context is done. The retries of a recovery run over the attempts that are left. Only the loop of
-- gcd runs on fuel, one more than its second argument, which falls at every turn. A scalar is
-- an element of the record Field and a point is one of the record Curve, which state the laws that
-- gnark-crypto documents; a theorem about points is about multiples of the generator, which all
-- points of the subgroup are.
--
-- Not modelled: the arithmetic of the field and the curve themselves, the ciphers, the runs of the
-- protocols between the start of a session and its dealer set, HTTP, attestation, the database layers,
-- contract bindings and the commands.
pub mod Prelude
pub mod Types
pub mod Peering
pub mod Config
pub mod KeyStore
pub mod Persistence
pub mod AutoHeal
pub mod Crypto
pub mod Field
pub mod Polynomial
pub mod Curve
pub mod Commitments
pub mod Dkg
pub mod Refresh
pub mod Recovery
pub mod Ibe
pub mod Signing
pub mod Merkle
pub mod Reshare
pub mod Dealers
pub mod Session
pub mod Scheduler
pub mod Restore
pub mod Tests
