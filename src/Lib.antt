-- ===== src/Lib.antt =====
-- Execra runs commands as jobs: a runtime admits them, a driver per job reads the output of the
-- process, gives each line to an interpreter, and tells what happens as events on a broadcast
-- channel, in a snapshot of the job and in a SQLite store.
--
-- The parts, and where they are modelled:
-- - Command, Finding, Progress, Outcome, Job, Event, Interpreter: the files of the same name in src/
--   (Job also src/phase.rs). An enum is a data type with the source's constructors and a struct is a
--   record. Progress holds `f32` by its bit pattern, so that `clamp01` computes.
-- - Host: what comes from outside: the clocks, UUIDs, serde_json, lossy UTF-8, and whether each SQLite
--   statement runs. `IsFaithful` is the assumption on it: JSON of commands and outcomes is read
--   back as it was written, and a string without a backslash stands for itself.
-- - Store: src/store.rs. A table is the list of its rows and a statement is the change that it makes
--   to them. Store/Rows has the columns, Store/Time the milliseconds, Store/Query is `list_jobs` and
--   Store/Open is `open`; what SQLite decides there, `LIKE` and the order of rows with equal times, is a
--   parameter, of which `IsOrdering` says that `ORDER BY` orders and loses nothing. Store/History is
--   about `upsert_job` and `load_job`, Store/Listing about `insert_event` and `list_events`,
--   Store/Found about `list_jobs`, Store/Restart and Store/Settled about `resurrect_stranded_jobs`.
-- - Driver: src/runtime/driver.rs with src/runtime/wait.rs and src/runtime/raw_output.rs. World is
--   what the driver shares, Emitting is `emit` in two tasks at once, Apply is `apply_events`, Lines is `next_line`, Wait the task that waits
--   for the child, Verdict is `compute_outcome`, Process the set-up of the process, RawOutput keeps the lines, Packing is
--   `finalize_raw_log`. Loop is `drive_job`:
--   Loop/Task its variables, Loop/Call the calls of the interpreter, Loop/Select one poll of its
--   biased `select!`, Loop/Run the loop and what follows it, Loop/Drive the whole. What happens
--   outside is a list of ticks, in any order: bytes in a pipe, the end of a pipe, a wake of the wait task, a
--   cancellation, a poll of the driver. Loop/Rule is the induction over them, Loop/Frame is about
--   what a call leaves alone, and Observer reads the events as a subscriber does. The other modules
--   hold proofs.
-- - ProcGroup: src/proc_group.rs. A method is the list of the system calls that it makes; the wait
--   task of Driver/Wait has `terminate` and `kill` of a group as signals.
-- - Interpret: src/interpret.rs. Interpret/Table is `RuleInterpreter`, whose settings
--   are in Table/Settings, Interpret/Rules is the macro
--   `rules!`, Interpret/Render is `render`, and Interpret/Chars what they take from the standard library. A compiled regex is the function
--   that it computes.
-- - Runtime: src/runtime.rs (Runtime/Jobs), src/runtime/query.rs (Runtime/Query),
--   src/runtime/stream.rs (Runtime/Stream), src/runtime/config.rs (Runtime/Config),
--   src/runtime/builder.rs (Runtime/Build) and src/runtime/handle.rs (Runtime/Handle, with
--   `poll_next`). The map of jobs is an association list in the order in which it is iterated;
--   `sort_by` is a stable insertion sort (Runtime/Newest). A receiver of the broadcast channel is the
--   number of events sent before it. Runtime/Channel has a receiver while events
--   are sent and taken. Stored, Restarted, Subscribed, Polling and Lifecycle hold proofs.
-- - System: the runtime and the drivers of all its jobs in one state. An action is a call of `spawn` or
--   `cancel` or a step of one driver: it takes a permit, spawns the process, has a tick of its loop, or
--   leaves the loop; actions come in any order (System/State). Driver/Mapped shows that a driver does
--   the same on any view of the channel and the store that keeps up with it; System/Projection is the
--   view of one job. System/Seats has the steps of a driver, System/Told and System/Admitted what they,
--   `spawn` and `cancel` leave of the others, System/Coming how far a job is from its end. The other
--   modules there hold theorems alone.
-- - Tauri: src/tauri.rs. Tauri/Plugin is `init_with` and `RuntimeRef`, Tauri/Task is `TaskBuilder`,
--   Tauri/Creep is `CreepState`, Tauri/Forward is `forward_events`, whose polls are a list of turns: an
--   event, the end of the stream, the timer. Tauri/Await is `.await` on the builder, poll by poll. The
--   other modules hold proofs. An observer is the list of effects that it has on an event.
-- - Cli: crates/execra-cli/src/main.rs, whose `main` is in Cli/Main. What is printed is a list of lines, and the arms that `select!`
--   takes are a list.
-- - Scoop: examples/scoop_install.rs and examples/scoop_doctor.rs.
-- - Base: names of the libraries, tests on numbers and texts, lists, integers.
--
-- Bounds and fuel: loops are recursion on their lists. `read_all` of Driver/Reading and of
-- Runtime/Stream, and `poll_all` of Runtime/Polling, have fuel, which is enough where it exceeds the length of what is read; the loop of
-- the driver takes its polls from the list of ticks, and needs as many as Driver/Ending counts.
-- `usize` has 64 bits; milliseconds wrap at 64 bits; times
-- are nanoseconds since the epoch.
--
-- Not modelled: what the system calls of src/proc_group.rs do to processes, builds without the feature gzip, what the
-- tauri crate does with an application's state (a parameter of Tauri/Plugin),
-- examples/move1_acceptance.rs and tests/. Events that the broadcast channel, which holds
-- 1024, drops for a slow subscriber appear in Runtime/Stream as `lagged`; a theorem about what is read
-- says whether it is for a subscriber that keeps up. What tokio does with the set-up of a process, and
-- with the calls on its stdin, is outside. A driver waits for its permit in System alone. Arithmetic on floats is a parameter wherever it is used.
pub mod Base
pub mod Command
pub mod Finding
pub mod Progress
pub mod Outcome
pub mod Job
pub mod Event
pub mod Interpreter
pub mod Host
pub mod Store
pub mod Driver
pub mod Interpret
pub mod Runtime
pub mod Tauri
pub mod Cli
pub mod Scoop
pub mod ProcGroup
pub mod System
