-- ===== src/Lib.antt =====
-- Verification library of eclaire, a gateway daemon that runs language-model agents on a schedule.
--
-- The program keeps its state in stores: jobs, flow runs, sessions, reminders and notifications in
-- files, tasks and system events in memory. A timer asks the job store what is due, runs it and
-- writes the outcome back to the job; an agent's turn asks a language model and runs
-- the tools that it calls; tool calls pass hooks, a permission checker and the workspace boundary; what
-- happens is told to the sessions by system events and to the user by notifications. Each store is a
-- Go struct with a mutex around every method, so that a method is one step: here a function from the
-- state to the new state and the result.
--
-- The files, and the Go files that they model:
--   Jobs, Jobs/Schedule, Jobs/Cron, Jobs/Store   internal/agent/jobstore.go
--   Jobs/Retry                                   internal/agent/jobexec.go (applySuccess, applyError,
--                                                recomputeAll, computeDelay)
--   Executor                                     internal/agent/jobexec.go (Start, tick, fireReminders,
--                                                reapSessions)
--   Executor/Running                             internal/agent/jobexec.go (executeJob, executeAndApply),
--                                                and the subscribers in internal/agent/notifications.go
--                                                and internal/gateway/gateway.go
--   Tools                                        internal/tool/tool.go, registry.go
--   RateLimits                                   internal/tool/executor.go (rateLimiter)
--   Permissions                                  internal/tool/permission.go
--   Flows, Flows/Run                             internal/agent/flow.go, flowstore.go
--   Tasks                                        internal/agent/task.go
--   Notifications                                internal/agent/notifications.go
--   Events                                       internal/agent/sysevents.go
--   Sessions, Sessions/Reaping                   internal/persist/session.go, reaper.go
--   Reminders                                    internal/tool/reminder.go
--   LoopDetection                                internal/agent/loop.go
--   Hooks                                        internal/hook/hook.go
--   Inputs                                       internal/tool/validate.go; internal/agent/runtime.go
--                                                (summarizeToolInput)
--   Inputs/Workspace                             internal/tool/permission.go (CheckWorkspaceBoundary,
--                                                resolveRealPath); internal/agent/runtime.go
--                                                (extractWriteDir)
--   Permissions/Patterns                         internal/tool/permission.go (ExtractShellPattern and
--                                                what it calls)
--   Runtime, Runtime/Approvals,                  internal/agent/runtime.go (executeToolCall,
--     Runtime/Workspace, Runtime/Calls           persistApprovals, extendWorkspaceRoots)
--   Runtime/Streams, Runtime/Turns, Runtime/Loop internal/agent/runtime.go (RunTurn); internal/agent/loop.go
--                                                (hashToolIteration)
--   Shell                                        internal/tool/executor.go (limitedBuffer, sanitizeEnv,
--                                                ClampTimeout)
--   Gate, Gate/Steps                             internal/agent/approval.go
--   Contexts, Contexts/Compaction                internal/agent/context_engine.go
--   Todos                                        internal/tool/todos.go
--   Patches                                      internal/tool/patch.go
--   Providers, Providers/Windows                 internal/provider/provider.go, router.go
--   Providers/Attempts                           internal/provider/fallback.go
-- The modules below these hold the proofs and, in Tests, the theorems applied to concrete data. A
-- definition has the name of the function it models in snake case; Prelude holds lists, sorting, maps,
-- texts, instants and Boolean tests.
--
-- Conventions. A Go map is an association list, whose order stands for the order of `range`; a missing
-- key is `none`. A pointer that may be nil is an Option. An instant counts nanoseconds from the zero
-- `time.Time`, so that subtraction stops at it; counts and sizes are unbounded natural numbers; a
-- duration that the user gives is an integer. The clock, a fresh identifier and the answer of the file
-- system to a write are arguments of the operations that use them. A write of a file
-- succeeds, or fails and leaves the file as it was; that a failed `os.WriteFile` of the reminders may
-- leave a part of the file is not modelled.
--
-- Fuel. The search of cron expressions takes fuel: 366 days have 527,040 minutes, and it is given
-- one more. The search for an existing directory takes the length of the path, which each step makes
-- shorter, and the nesting of `sh -c` the length of the command. The iterations of a turn are those of
-- the program's own bound. All other loops are by recursion on a list or a text.
--
-- The world outside. The runtime asks models, tools, hooks and humans; each answer is a function of all
-- that was asked before, so that nothing is assumed of them, and the list of what was asked is part of
-- the state.
--
-- Goroutines. A run of a job that the timer starts is one step, `execute_and_apply`, which comes at some
-- time after the tick; a message of the bus is handled by a later step of its subscriber. The approval
-- gate, whose callers wait for each other, is a step relation (Gate/Steps).
--
-- Not modelled: the calls of language models, of the network and of the terminal; the parsing of shell
-- commands, of Go templates and of dates, whose results are arguments; JSON, whose values are the
-- records themselves or the answers of a parameter; the cut of long texts at a byte, which is an
-- argument; the costs of the models, which are floating-point numbers.
pub mod Prelude
pub mod Jobs
pub mod Executor
pub mod Tools
pub mod RateLimits
pub mod Permissions
pub mod Flows
pub mod Tasks
pub mod Notifications
pub mod Events
pub mod Sessions
pub mod Reminders
pub mod LoopDetection
pub mod Hooks
pub mod Inputs
pub mod Runtime
pub mod Patches
pub mod Providers
pub mod Shell
pub mod Gate
pub mod Contexts
pub mod Todos
