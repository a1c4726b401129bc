-- ===== src/Lib.antt =====
-- The backend of JARVIS (backend/src/jarvis): a desktop assistant whose tasks are created over HTTP,
-- run by a graph of agents under a policy, controlled by their owner, and streamed to the desktop.
--
-- Parts and files.
-- * Base, Text and Dict hold what the parts share: Boolean tests and equality, lists measured by
--   native numbers, Python text as code points with the patterns of the identifiers, and Python dicts
--   as association lists in insertion order.
-- * Tasks (backend/src/jarvis/tasks). Model has the enumerations and records of models.py. Repository
--   and Control have the methods of `InMemoryTaskRepository` of repository.py, as functions from the
--   state to the state and an answer (`Result`: what returns, or the exception). Service has
--   `TaskCreationService`, `TaskQueryService`, `TaskEventQueryService` and `TaskControlService` of
--   service.py, which validate, call the repository, and publish and notify; these effects are
--   a list. Steps has the repository's calls as a step relation.
-- * WebSocket (backend/src/jarvis/websocket/session.py). Registry has `LiveConnectionRegistry`, Broker
--   has `InMemoryTaskEventBroker`, Stream has `streamTaskEvents`, Session has the turns of the loop of
--   `openWebSocketSession`, and Handshake what comes before and behind it; what the authenticator
--   answers is an argument. The replay reads pages through Tasks.Service; the broker is fed by
--   the effects of the services.
-- * Runtime (backend/src/jarvis/runtime/lifecycle.py). `ApplicationRuntime`: start with rollback,
--   readiness, and shutdown.
-- * Graph (backend/src/jarvis/graph). Patterns and Plan have the identifiers' patterns and the plan's
--   types of plan.py; Policy has policy.py: Contract its records and validators, Decide the baseline,
--   `_tighten`, the aggregate rules and the advice, Evaluate `evaluatePlanPolicy` with its checks.
--   The digest of a decision's identifier, the policy resolver and the security advisor are
--   parameters; Policy reads the task's pattern through Tasks.Service. Node and State have the
--   errors and the state that the nodes share. Approval has approval.py (Request, Pause) and
--   approval_resume.py (Resume): the plan's question to the user and the answer. Dispatch has
--   dispatch.py (Contract, Input, Action): what is handed to the store for execution. Verification has
--   verification.py: Contract its records and validators, Judge the criteria, Observe the
--   probes, Input and Verify `verifyOutcome`. The approval that Approval.Resume leaves in the state is what
--   Dispatch takes as a licence; the results of what was dispatched are what Verification looks at.
-- * Security (backend/src/jarvis/security). Contracts, Nonces, Headers and Desktop have `ContractRange`,
--   `InMemoryNonceStore` and `DesktopSessionAuthenticator` of desktop_auth.py; Authority has
--   `InMemorySessionAuthority` of session_auth.py, from which the authenticator reads its records.
--   Challenges has `InMemorySessionChallengeStore`, Session and Base64 the data of session_auth.py
--   with `issueSessionChallenge`, Prove and Establish `authenticateSession`: what it checks of a
--   proof, and how it then consumes the challenge and rotates the authority's session. PyJWT,
--   ECDSA and the versions of `packaging` are parameters.
--
-- How the code is represented.
-- * Every method of the repository, the registry, the broker and the runtime holds one lock from its
--   beginning to its end, so one call is one step, and any interleaving of tasks is a sequence of
--   calls. Between two pages of a replay the repository may be another one; it is a function of
--   the round.
-- * Times are numbers of microseconds, UUIDs are arguments, and where a property needs a UUID to be
--   new this is a hypothesis of the step. `hmac.compare_digest` is equality of text.
-- * The loop of `streamTaskEvents` runs on fuel; WebSocket.Stream.stream_replays shows that one round
--   more than there are events left is enough. Every other loop is structural.
-- * The SHA-256 of a canonical JSON text is a parameter of the definitions that use it.
--
-- Not modelled: the HTTP routes and the error envelopes (glue around these parts), the identity
-- that the desktop makes of its key, the model provider, the graph's other nodes, failures of a
-- send and disconnects (they end a sequence of turns), a cancellation of `refresh_readiness`, and
-- the values that `hmac.compare_digest` refuses to compare. The criteria of a verification run one
-- after the other: which of several errors is raised first is not decided by the code either.
pub mod Base
pub mod Text
pub mod Dict
pub mod Tasks
pub mod WebSocket
pub mod Runtime
pub mod Graph
pub mod Security
