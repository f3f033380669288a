-- ===== src/Lib.antt =====
-- Agent Life: the protocol core of the bridge between agents and a personal device.
--
-- A request for a device is an operation. protocol/src/operation-machine.ts moves an operation record
-- from its creation over approval and execution to a terminal outcome;
-- protocol/src/execution-ledger.ts holds the records of one bridge by operation id, lets one claim
-- execute each, and stores the signed receipt of its result. Messages reach it in sequence spaces,
-- whose windows protocol/src/replay-window.ts keeps, over connections whose leases
-- protocol/src/connection-fence.ts fences, and are paid for by rows of a security ledger that
-- protocol/src/operation-ledger-quota.ts limits. What a device may do stands in the revision of
-- protocol/src/authorization-revision.ts, of which each operation carries a snapshot. The gateway
-- states of attachments, device requests and generations are the tables of
-- gateway-contract/src/state-machines.ts; the host under integrations/openclaw/src/core keeps the
-- device requests and their claims in SQLite, by device-request-store.ts over account-store.ts.
--
-- The deterministic replay ledger of protocol/src/replay-window.ts puts windows and rows together: it
-- previews, admits, retries, accounts and compacts the messages of both directions under limits of
-- rows and bytes. protocol/src/data-query-grant.ts keeps the human's grants to read stored data, in
-- step with the device, and protocol/src/authorization.ts decides each access to the device and to
-- stored records, against the manifest of protocol/src/capability-manifest.ts; protocol/src/risk-policy.ts
-- says which approval an operation needs, and protocol/src/egress-policy.ts whether model requests
-- may leave. artifact-contract/src/artifact-ticket.ts issues the tickets of the files that go with a
-- message, and commits the message with verified ones. protocol/src/error-model.ts turns a failure of
-- any of these parts into the answer that leaves the bridge.
--
-- Files. Each component has a file of its name with the types and checks, child files with the
-- operations and proofs, and a child Tests with samples.
--   Operation: types, validators, createOperationRecord. Operation/Machine: reduceOperation, the
--     function `reduce_operation`, with one helper for each branch of its switch.
--   Execution: receipts, entries, equivalentRecord. Execution/Ledger: the methods of
--     MemoryExecutionLedger, `register`, `claim`, `put_result`, `recover_claimed_without_result`.
--   Replay: acceptSequence, `accept_sequence`; Replay/Bits and Replay/Window on bit masks.
--   Authorization: createAuthorizationRevisionState. Authorization/Step: minting, applyRevisionEvent
--     with one function for each kind of event, revisionSnapshot and revisionsEqual.
--   Fence: DeterministicConnectionFenceStore and fenceConnection.
--   Quota: chargeSecurityRow, admitSecurityCharge, createSecurityTombstone.
--   Versions: parseProtocolVersion, highestCommon, selectHighestCommonVersion, verifyWelcome
--     of protocol/src/version-negotiation.ts.
--   Gateway: nextAttachmentState, nextDeviceRequestState, nextGenerationState. Gateway/Store: tables,
--     transactions, audit and events. Gateway/Requests and Gateway/Results: the methods of
--     DeviceRequestStore, `enqueue`, `claim`, `submit_result`, `validate_claim_replay`,
--     `validate_result_replay`, `recover_expired`. Gateway/Batch: joinMessageBatch.
--   ReplayLedger: rows, spaces and counters of DeterministicReplayLedger; Compact and Policies have
--     the compaction and the checks of policies, Preview, Admit, Settle and Restore its methods.
--   Grants: keys, authorities and records of query grants. Grants/Update: the update of a grant and
--     its checks; Grants/Store: the store of grants and its acknowledgements.
--   Capabilities: the registry's definitions, `resolve`, and the filters of each capability.
--     Capabilities/Registry: registryDocument. Capabilities/Manifest: validateScopeCeiling and
--     effectiveCapabilities.
--   Access: evaluateDeviceAccess, evaluateStoredQuery. Access/Policy: evaluateRiskPolicy,
--     verifyZeroRetentionEvidence, evaluateEgressProfile. Access/Gate: the gate of envelopes.
--   Artifacts: issueArtifactTicket. Artifacts/Tickets: verifyArtifactProof, commitArtifactMessage,
--     interruptArtifactTicket, reclaimOrphanTicket; the verifier is a parameter.
--   ErrorModel: classifyProtocolFailure and validateErrorResponse.
--   Shared: Boolean tests, digests, lists, errors, text patterns, instants, and JavaScript's Map and Set.
--
-- Correspondence. A function that throws returns a Result, whose error is the text thrown; a method
-- that changes its object takes the state and returns the new one with the answer. Awaiting has no
-- counterpart, since each method runs to its end without a suspension between its tests and its
-- changes. Frozen copies are values. A Map is an association list in insertion order. A bigint is ℕ
-- where the code has it non-negative, and the integers of Shared/Int where it tests the sign; the
-- limit of 64 bits is the test that the code makes. Random ids, fresh objects and the clock are
-- arguments. TypeScript's brands hold by typing, apart from the weak sets of authenticated transitions
-- and of minted authorities, which are state, and the brand of a verified ticket, which is a field.
-- Artifacts returns Checked, with the codes of its own error class. Parameters stand for canonicalize, for Date.parse on texts that are
-- no ISO instants, for the encoding test of lease ids, for the digests of claims, keys, filters and
-- proposals, and for the check of a signature; the registry of capabilities is an argument. SQLite is
-- read by its documented meaning: a violated key throws and changes nothing.
--
-- Fuel. Only `tokens` of Capabilities, which reads a text, and `digits` of Shared/Text, which writes
-- a number, take fuel: the length of the text, and one more than the number. That is enough, since a
-- turn removes a character or a decimal digit at least. All other functions recurse on their data.
--
-- Not modelled: values outside their TypeScript type, on which the validators' type tests act;
-- a transaction within another one, and its hooks; the snapshot and restart of the replay ledger with
-- its persisted metadata; signatures, key rotation, envelopes, schemas, the other stores, the Android
-- and Python programs, and the retired bridge runtime.
pub mod Shared
pub mod Operation
pub mod Replay
pub mod Execution
pub mod Authorization
pub mod Quota
pub mod Fence
pub mod Gateway
pub mod Versions
pub mod ReplayLedger
pub mod Grants
pub mod Capabilities
pub mod Access
pub mod Artifacts
pub mod ErrorModel
