-- ===== src/Lib.antt =====
-- The mow agent harness (Go): models of the packages that carry its own logic, and the theorems
-- that make them correct. Paths below start at the repository's root.
--
-- The parts and their files. Each component is a module; its child modules hold the proofs, named
-- for what they prove.
--
-- internal/policy/policy.go decides which tools run and which paths they may touch. `Policy.Tools`
-- is powerTools, IsPowerTool and AllowTool; `Policy.Path` is what policy.go uses of path/filepath,
-- a path being the list of its elements, last first; `Policy.Jail` is jailRoots, resolveSymlinks,
-- ResolvePathFor and Beneath on a file system given by EvalSymlinks, Lstat and Readlink.
--
-- internal/tools/filediff.go (`Tools.Diff`: diffLines, buildHunks) and
-- internal/tools/apply_patch.go (`Tools.Patch`: applyHunks) are the two directions of an edit: one
-- describes it, the other makes it.
--
-- internal/llm/retry.go (`Llm.Retry`: doWithRetry with its delays and its classes of errors) sends
-- a request until it is answered. A round is one function of the state of the loop; what the
-- network, the clock, the context and the random source do is a record of functions of the round's
-- index.
--
-- ext/goal is the outer loop over many prompts. `Goal.Plan` is plan.go, `Goal.Report` the signal of
-- finish.go, `Goal.State` the state of goal.go with runlock.go's healing, `Goal.Spec` what RunSpec
-- and ResumeAnswer make of a stored goal, `Goal.Step` RunStep of executor.go, `Goal.Parallel` the
-- width and the join of parallel.go, and `Goal.Run` with `Goal.Run.Passes` is runState of
-- runner.go: a step's reports make a signal, the signal a step result, and the runner folds step
-- results into the durable state. A pass of the runner is one function of the state and of a record
-- of what the pass meets (the step's work, the saves, the router, the verifier, the clock); `saved`
-- is the state of the last save that succeeded.
--
-- ext/workflow/workflow.go (`Workflow`, its loop `Workflow.Run`, and `Workflow.Stored`) runs the
-- phases of a definition, each between a save that marks it running and a save of its output.
--
-- internal/agent is the tool loop of one prompt. `Agent.Messages` is what it reads of a message,
-- `Agent.Tools` one tool call with its hooks (runTool; `Agent.Tools.Exec`: execOneTool),
-- `Agent.Batch` the calls of one reply (runToolBatch, one by one or at once), `Agent.Repair`
-- repairToolResults, and `Agent.Loop` the loop of Run: `Agent.Loop.Passes` with `Agent.Loop.Turn`
-- is one pass, a function of the variables of Run and of a record of what the pass meets
-- (compaction, the hooks, the provider, the steers of the host, the tools), and `Agent.Loop.Run`
-- the loop and the messages that it starts with. `Agent.History` reads a history the way a provider
-- does: `Replayable` says that it can be sent again. `Agent.Truncate` is the cut of one tool result
-- in compact.go, on bytes, `Agent.Compact` the compaction of a whole history in compact.go with
-- applyCompact, `Agent.Think` extractThinking, `Agent.Explore` the counters of the exploration
-- guard, and `Agent.Drift` the report of a rewritten history in drift.go.
--
-- internal/permstore/store.go (`Permstore`) is the remembered permissions.
--
-- internal/session/session.go stores the history of a conversation as lines of JSON. `Session.Log`
-- is the lines of a file (scanLines) and the events, `Session.Store` and `Session.Append` are
-- append and AppendSnapshot with the cache of a Store, and with the system call that fails if one
-- does; `Session.Replay` with `Session.Repair` is LoadMessages and repairToolCalls, and
-- `Session.Runtime` is LoadRuntime and LoadTranscriptEvents. A file is a list of bytes; `Library`
-- holds the functions of encoding/json and path/filepath that the package calls, and
-- `Session.Codec` says what it relies on of them. `Session.Writers` runs any number of hosts on one
-- file, with the faults that their writes find.
--
-- internal/config/config.go (`Config`, `Config.Merge`: mergeOverlay; `Config.Project`:
-- mergeProjectFile) lays one configuration over another. A map is a list of keys and values, and a
-- section of an extension a text.
--
-- ext/ext.go (`Ext`) is the registry of tools, hooks and extension instances, which `Ext.Setup`
-- (BeginSetup) fills through the calls that a pack's callback makes; `Ext.Engines` is the
-- references that engines of internal/engine/engine.go hold to a generation.
--
-- `Prelude` holds what they share: Go strings as lists of code points, lists and tests over the
-- native numbers, results with errors. `Tests` applies the theorems to concrete inputs.
--
-- Bounds. Counters that the code keeps non-negative are natural numbers. The durations of retry.go
-- are 64-bit words, whose products wrap around. `retry_loop` runs on attempts + 12 + 1 rounds of
-- fuel, one more than its two budgets can schedule, and its theorem shows that the fuel is never
-- used up. `run_loop` recurs on MaxSteps - Step, which every pass lowers by one, and the workflow
-- on the list of its phases. `resolve_symlinks` recurs on the depth that is left of maxSymlinkDepth
-- and on the path. `digits` has as much fuel as its number plus one. The tool loop has no limit of
-- its own where MaxTurns is 0: `run_loop` runs on fuel, and with a limit the theorem says how much
-- is enough. `shrink_window` has three rounds more than the messages that it keeps at first: each
-- round that goes on keeps fewer.
--
-- Not modelled: the budgets of compaction, which are floating-point (its target is a number here),
-- times but for the budgets of a goal, events and log lines (they do not feed back), the encoding
-- of JSON (a test or a function that is a parameter), hashes (parameters), file locks (one call has
-- the file at a time), Unicode classes of letters (a parameter) and case beyond ASCII. The tool
-- loop takes what compaction makes of a history, the fingerprint of arguments and the hint of the
-- exploration guard as functions. A message has no Parts, ProviderCalls and Reasoning, and a call
-- no Type and ItemID. The LLM clients, the rest of the engine and the protocol adapters are not
-- modelled.
mod Prelude
pub mod Tools
pub mod Llm
pub mod Policy
pub mod Goal
pub mod Workflow
pub mod Agent
pub mod Permstore
pub mod Config
pub mod Ext
pub mod Session
mod Tests
