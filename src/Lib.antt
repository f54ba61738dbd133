-- ===== src/Lib.antt =====
-- nomadposting, a controller that publishes short texts to X and Nostr through guarded exits.
--
-- The program keeps jobs in a database. `CreateDraft` seals a text and stores it as a draft; an
-- operator looks at its preview and approves the hash of exactly what was shown; `PayloadForDispatch`
-- opens the approved text again right before it is routed. Exits are endpoints in a registry, kept
-- eligible by probes; a selector grants leases on them, and a broker in a privileged process is the
-- only one to change the network. The emergency stop halts approvals and dispatches.
--
-- Domain: internal/domain. `State` is the table of transitions and `State.Paths` its lives,
--   `Content` is NormalizeContent, `Approval` is ApprovalHash.
-- Egress: internal/egress. `Types`, `Catalog`, `Registry`, `Health` (ApplyProbe, probeAll),
--   `Selector` (NewSelector, Select), `Broker` (Status, DryRun, Execute). A map is an association
--   list by key, and each method under the lock is one step on it.
-- Secure: internal/secure/envelope.go. `Envelope` is NewEnvelope, Seal and Open over an AEAD,
--   `MasterKey` GenerateMasterKey and DecodeMasterKey.
-- Store: internal/store/sqlite.go. `Tables` has the rows, how a statement runs and how it fails;
--   `Jobs` the statements on jobs; `Receipts` receipts and the job list; `Records` audit events and
--   the emergency stop; `Secrets` the authentication state, recovery hash and X tokens.
-- App: internal/app/service.go. `Service` has the methods, each a sequence of statements on the
--   store; `Approval`, `Stop` and `Drafts` are proofs about them, over the lemmas of `Frames`.
-- Platform: internal/platform. `Nostr` has events and their IDs (`Event`), remote signing (`Signer`) and
--   the publication to three relays (`Connector`); `X` the checks of a text (`Text`), the meaning of
--   answers (`Status`) and Publish (`Connector`); `Oauth` the pending authorizations (`States`), the
--   requests for tokens (`Requests`, `Answers`) and the stored tokens (`Custody`). The connectors
--   act on an abstract state that signer, relays, HTTP client, vault and clock share, so that the
--   state a call leaves shows which calls were made. `Posting` is the X connector over the tokens,
--   with a client that keeps the requests it is given.
-- Auth: internal/auth/passkeys.go. `Manager` is the state and what is given to it, `Sessions` the
--   sessions and ceremonies, `Clearance` what lets a request through, `Recovery` the recovery code and `Handlers` registration and login.
-- Netbroker: cmd/netbroker/main.go, a connection to the broker's socket (`handleConnection`).
-- Web: internal/web/server.go, the guarded routes to the controller's operations on jobs.
-- Errors, Clock, Encoding, Json, Random and Unicode are what the code uses of Go's library, Prelude
--   the shared types and lemmas, Scenarios the runs on concrete inputs.
--
-- A text is the list of its bytes. An instant is the number of nanoseconds since the zero time;
-- differences of instants saturate as in Go, and failure counts wrap at 2^32. Code that may fail
-- returns a result, and code that draws random bytes or runs statements passes the state on; every
-- statement may fail by a fault of the driver, and a failed statement changes nothing. All loops run
-- over lists, so no fuel is needed but for printing numbers, where a number has enough of it in itself.
--
-- Outside the model, as parameters: AES-GCM (`Aead`: a tag of 16 bytes, what was encrypted decrypts,
-- and a ciphertext decrypts only to what encrypts to it), crypto/rand (`Random`: a full read has its
-- length, a number below a bound is below it, and where bytes are encoded, it reads bytes), SHA-256,
-- RFC 3339, the padded base64 (`Base64`: what was encoded is decoded), encoding/json of audit events
-- and receipts (`Codec`, `ReceiptCodec`) and of X's answers and tokens, url.Parse, the endpoint
-- prober and the executor of the broker, signer, relays, HTTP client and token vault, and go-webauthn
-- (`Given`). SQLite is modelled by tables of rows whose statements are atomic. Handlers of
-- internal/auth run one after the other.
--
-- Not modelled: the pages and the X routes of the web server (internal/web), the start-up of the programs under cmd and of the
-- managers, and opening and upgrading the database file. They are I/O or lie behind the core.
pub mod Prelude
pub mod Unicode
pub mod Errors
pub mod Clock
pub mod Encoding
pub mod Json
pub mod Random
pub mod Domain
pub mod Egress
pub mod Secure
pub mod Store
pub mod App
pub mod Platform
pub mod Auth
pub mod Netbroker
pub mod Web
pub mod Scenarios
