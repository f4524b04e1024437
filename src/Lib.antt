-- ===== src/Lib.antt =====
-- MAGI: three agents (MELCHIOR, BALTHASAR, CASPER) investigate a decision case, vote, debate and vote
-- again, and an orchestrator turns their ballots into one resolution.
--
-- The parts and their files. All sources are under backend/domain.
-- - Entity: the data of entity/ (votes, resolutions, evidence, reflections, case statuses). A Go string
--   type with constants is a data type, with one constructor for every other text. Nil pointers are
--   `none`. Time stamps are left out.
-- - Consensus: `EvaluateBallots` of consensus/engine.go. Engine has the two loops and the ladder of
--   conditions in the source's order; Counts the loops as counts; Outcome and Order what they decide.
-- - Evidence: the ledger of a run (evidence/ledger.go) with its id counters, the cut of source URIs, and
--   the scores of evidence/reliability.go, over floating point as bit patterns (Prelude/Float); sums and
--   products of the hardware are a parameter. Ledger/Snapshot is `MarshalLedger` and `RestoreLedger`,
--   with the JSON encoding as a parameter. Gate (gate.go, the rules in Gate/Rules), RoleGate
--   (role_gate.go) and RoleDecision (role_decision.go) are the deterministic gates on an agent's summary
--   and vote; `strings.ToLower` is a parameter.
-- - Execution: the kernel of execution/kernel.go over the journal of invocations. Invocation has the data
--   of entity/execution.go and the port `RuntimeInvocationRepository` as an interface, with the contract
--   `IsFenced`; Kernel is `execute`; Memory is the in-memory journal of runtime/invocations_memory.go,
--   which meets the contract (Memory/Fence). Tools is the tool runtime (toolruntime/): the checks of
--   `Execute`, the closure that the kernel runs, and the bounds and the stored form of a result.
-- - Runtime: the agent loop (runtime/agent_loop.go). VoteDimensions is `ValidateVoteDimensions`
--   (prompt.go); Messages the history that the model is sent; Response `unwrapFunctionCall` and
--   `parseResponse`; Checkpoints the service of checkpoint.go; Termination and Result `CheckTermination`
--   and the result of a run. Loop has the loop's state, its collaborators (`AgentWorld`) and
--   `commitCheckpoint`; Loop/Compaction `compactHistory`, Loop/Model the call of the model, Loop/Tools
--   and Loop/Responses the branches of the switch, and Loop/Run the iterations; its other modules are
--   proofs.
-- - Debate: `BuildPacket` of debate/engine.go, `ValidateReflection` and `InferReflection` of
--   debate/reflection.go. The finder of conflicting claims is a parameter of the packet; Claims is the
--   claim graph and the finder of claim/graph.go and claim/conflict.go.
-- - Fsm: the transition table of entity/fsm_blueprint.go.
-- - Orchestration: Ballots (failure_policy.go, `collectBallots`), Dissent (`extractDissent` with
--   service/dissent.go), Enforce (`EnforceReflectionRule`), Remap (the ids that `persistArtifacts`
--   writes, idmap.go), Commit (`advanceStatus`, `commitTerminal`, `fail`), Steps (the handlers of
--   steps.go) and Machine (`dispatch` and the loop of `orchestrate`).
-- - Samples: data for the examples, which stand in a module Examples of each part.
--
-- How they interact: `orchestrate` runs the handler of a status on a shared state (`State`), which the
-- handlers take and return. Collecting votes turns the results of the agents into ballots and absences,
-- the consensus is evaluated over both, a split leads to a debate and a second vote, on which the
-- reflection rule is enforced, and resolving binds the dissent record. Each transition is committed by
-- `advance_status`, or by `commit_terminal` at the end. Agents, the commander and the repositories are
-- fields of `World` and `Ports`: any answers, at the round and phase or the target status of a call.
-- What takes effect in the repositories is a list of effects; a commit whose outcome the repository
-- cannot confirm (`ErrCommitOutcomeUnknown`) may have taken effect, although it returns an error.
--
-- An operation of the kernel is several calls of the journal, and other workers act between them: what
-- they do is a function of `Environment`, or a sequence of the journal's operations (`Moves`).
--
-- An iteration of the agent loop is a sequence of parts (`Flow`), each of which goes on with a state or
-- returns from the run. The state has a history of what was done to the outside, newest first; the
-- answers of the model, the tools and the repository are any functions of it. The loop is recursion on
-- the steps that are left, of which the policy's bound, or 12, is the number. The tools of the loop are
-- a parameter of it, and their runtime is modelled on its own.
--
-- The loop of `orchestrate` runs on fuel, one unit for each iteration. A nil pointer that a handler
-- reads is the ending `crashed`.
--
-- Not modelled: the rows that `persistArtifacts` writes (only its first error and the ids; it also reads
-- the result and the configuration of every agent, so a nil one would panic there), the text of
-- reports, memory projection and evaluation, live events, metrics and logs, the two exported entry
-- points before `orchestrate`, `ConflictComponent` of the claim graph, the start of an
-- agent run from a checkpoint, the wait for a human approval, the assembly of prompts, traces, and
-- everything outside backend/domain, which is storage, transport and wiring.
pub mod Prelude
pub mod Entity
pub mod Consensus
pub mod Evidence
pub mod Execution
pub mod Runtime
pub mod Debate
pub mod Fsm
pub mod Orchestration
pub mod Samples
