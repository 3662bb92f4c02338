-- ===== src/Lib.antt =====
-- XOps CLI runs operations on remote hosts, for people and, over the Model Context Protocol
-- (MCP), for agents. This library models the part of it that decides whether an agent's call may
-- run, the service that moves files for agents under such a decision, the coordinator of the
-- inventory that such decisions are made on, the engine that edits files by patches, the cache
-- through which credentials are read, the table of agents' terminal sessions, and the map in
-- which connections are kept.
--
-- The parts and how they interact. A tool call is given a level of risk (Guardrail.Risk,
-- Guardrail.Analyzer, Guardrail.Classify), from which and from the configuration the policy
-- decides to allow it, to ask or to deny it (Guardrail.Policy). Where it asks, the user approves
-- the call directly or by answering a challenge in a second call (Guardrail.Approval); the
-- handler runs between two entries of the audit log (Guardrail.Pipeline). A call that is let
-- through is bound to a snapshot of its targets, and each phase of it needs a permit for that
-- binding (Ports). The coordinator holds the inventory that is published and grants the permits
-- of the phases, while an update of the inventory keeps out those that it affects (State). A
-- file transfer is prepared under such a binding as a record with a single credential; an HTTP
-- request claims it with the credential, moves the bytes, verifies them and, for an upload,
-- commits by renaming its temporary file; each step is written to a journal first, from which a
-- restart recovers (Transfer). The file tool changes small files by patches (Patch), and the
-- terminal tool keeps its sessions in a table with limits for each agent and in all (Session).
-- The secrets for connections come from a backend through a cache (Credential). The pools of
-- connections are kept in a map that is split into shards (Concurrent).
--
-- Base: lists, texts as lists of code points, Go's integers and maps (association lists in the
--   order in which a range visits them).
-- Guardrail.Risk and Guardrail.Classify: core/mcp/guardrail/risk.go (Classify and the
--   classifiers of each tool). Guardrail.Analyzer: core/mcp/guardrail/analyzer.go.
--   Guardrail.Policy: core/mcp/guardrail/policy.go (Policy.Evaluate) and core/mcp/policy; the
--   overrides of nodes have an order for each range over them in an evaluation. The answers of
--   regexp, filepath.Match, netip and unicode are the fields of Platform.
-- Guardrail.Approval.Answers: core/mcp/guardrail/approval.go (interpretApproval, applyFallback,
--   RequestApproval). Guardrail.Approval.Challenges: advanceApproval of approval_roundtrip.go,
--   whose pending approvals are a map from tokens.
-- Guardrail.Pipeline.Audit: audit.go and context.go (AuditLogger.Log, log, invocation).
--   Guardrail.Pipeline.Asking: requestToolApproval. Guardrail.Pipeline.Calls: WithGuardrail of
--   guardrail.go. Guardrail.Pipeline.Deferred: Authorize and RecordAuthorized of
--   authorization.go. A call gives the state of its context at each point where the code asks
--   for it, what the client answers, and the identifiers that are generated; the audit's
--   destination is a function that takes an entry or fails.
-- Ports: core/mcp/ports/types.go and snapshot.go (OperationSnapshot.Resolve, Digest, Bind,
--   Binding.Validate). Ports.Permits: permit.go (NewPermit, WorkContext); the context of a
--   permit reports the error of its registration, or the one that ended it once it is released.
--   Hashing and core/ssh's connection keys are the fields of Hashes.
-- State.Views and State.Changes: core/mcp/state/change.go and the functions of coordinator.go
--   that read a snapshot. State.Coordinator: coordinator.go's Coordinator (New, Resolve, Enter,
--   Close). State.Updates: update.go, from BeginUpdate to Publish. A set of texts is a list; a
--   registration and an update have a number in place of their address. BeginUpdate has no
--   result while it waits for another update; Publish is three steps, since without the lock it
--   first cancels the operations that it has collected (kept with the update until then) and
--   then retires connections. State.History runs calls one after another.
-- Transfer.Record: core/mcp/transfer/record.go and the permits of authorization.go; encoding to
--   JSON and SHA-256 are the fields of Codec. Transfer.Manager: the state of manager.go's
--   Manager, save, Authenticate, Lookup. Transfer.Prepare: Prepare, collect, FindRequest,
--   RetryBound, InvalidateReady. Transfer.Lease and Transfer.Commit: lease.go, from Claim to
--   Close. Transfer.Control: Cancel, Cleaned, Shutdown and NewManager's recovery.
--   Transfer.Management: management.go.
-- Patch.Text, Patch.Blocks and Patch.Edit: core/mcp/patch/patch.go (Parse, Apply and the three
--   stages of applyBlock), with the functions of package strings on lists of code points.
-- Credential.Cache and Credential.Steps: pkg/credential/cache.go. The cache's linked list is the
--   list of its keys from the head to the tail, a reference is its text, and what runs while the
--   backend is read is a list of operations. Credential.Refs: ref.go (ParseRef, Ref).
-- Session.Table: core/mcp/session/manager.go (findOrReserveSlot, checkCapacityLocked,
--   finishReservedDialLocked, publishSession, takeReusableLocked, remove, SweepIdle, Shutdown),
--   a section under the lock being a function of the Manager; a session and a call of a dial
--   have a number in place of their address. Session.Waits: what a caller is told that waits for
--   another one's dial, after which it may search again. Session.Steps: getOrCreate and
--   sequences of such sections, with the dials under way.
-- Concurrent.Shards: core/concurrent/concurrent_map.go (NewMap, Set, Get, Remove, Pop,
--   RemoveIfMatch, Upsert, SetIfAbsent, Clear, MSet), with the hash function as a parameter and
--   a panic as a missing result. Clear and MSet, which lock one shard after another, are one
--   step.
-- Each method of Manager and Lease is a function from a Manager to its result and the Manager
-- that it leaves, also beside an error. The mutex makes each method one step. The outcomes of
-- the store's calls lie ahead in Store.outcomes, and its calls are kept, newest first. A context
-- is the error that it reports at the time of the call, a clock gives its readings in turn, and
-- an active task keeps its context's error, its request's error, its deadline and its
-- reservation. Transfer.History runs calls one after another. The modules with proofs are
-- Guardrail.Decisions, Caution and Levels; Guardrail.Approval.Ends, Served and Issued;
-- Guardrail.Pipeline.Entries, Executions, Clearance, Trail, Fallback and Authorized;
-- Transfer.Claims, Commits, Cancels, Delivery, Retention, Restart and Limit, on lemmas of
-- Transfer.Advances, Steps, Calls and Capacity; State.Effects, Transitions, Limits, Progress,
-- Commitments, Closure, Removals, Sets, Identities, Walks, Comparisons, Registrations, Numbers,
-- Admissions, Exclusion, Standing, Following and Permissions; Patch.Occurrences, Windows, Edits,
-- Endings and RoundTrip; Credential.Tokens, Limits, Overtaken, Fence, Evictions, Bounds, Hits
-- and References; Session.Slots, Turns and Closing, on Session.Counts, Dials and Joins; and
-- Concurrent.Refinement, on Concurrent.Views, Batches and Steps. The modules Checks,
-- Transfer.Runs and Transfer.Ends apply them to concrete calls, the latter two to the service of
-- Transfer.Example and State.Checks to the coordinator of State.Example.
--
-- The loops go over lists, but for the closure of a set of nodes under the dependencies between
-- them (expand_rounds), whose fuel is one round more than there are targets, and for the search
-- for a slot of a session (find_or_reserve), whose fuel is its turns, of which three are enough.
-- Times and sizes in bytes are unbounded numbers, signed where Go's are; of the modelled
-- operations only the cache's counters rely on wrap-around, which is written out (2 ^ 64).
--
-- Not modelled: the journal's files (core/mcp/transfer/journal.go), which the manager sees as
-- Store only; the cutting of diagnostics to their limit, whose result is an argument; the expiry
-- of a context's deadline between two calls, which a call sees as the context's error; the
-- messages shown to a user who is asked; the overwriting of a secret's memory; the coordinator's
-- listing of nodes; the reading and writing of a session's terminal and the timer that sweeps
-- sessions; the concurrent map's counting, iteration and encoding; and the rest of the program,
-- which is network, terminal and file handling for the most part.
pub mod Base
pub mod Ports
pub mod Guardrail
pub mod Transfer
pub mod Patch
pub mod Concurrent
pub mod Credential
pub mod Session
pub mod State
