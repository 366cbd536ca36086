-- ===== src/Lib.antt =====
-- The linux-rtfm framework: a run-time crate that runs tasks of fixed priorities as handlers of Linux
-- real-time signals, and the procedural macro `#[app]` that checks an application, assigns a signal
-- to each priority level of each core, and generates the code between the tasks.
--
-- The parts, and where they are:
--   Base               shared names: numbers, lists, panicking code (Run), stateful code (State),
--                      machine integers (Int, Bits).
--   Runtime.Time       src/time.rs: `Instant` with its order, sums and differences; Elapsed reads
--                      instants as numbers of nanoseconds, Trip is about sums and differences.
--   Runtime.Kernel     the system calls, with their arguments; the kernel that answers is a
--                      parameter. `now` is `Instant::now`.
--   Runtime.Cells      src/export.rs: `Barrier`, `Pid`, `Timer`, `Priority`; Waiting is about the
--                      spinning loops.
--   Runtime.Signals    src/export.rs: `init_runtime`, `spawn`, `set_affinity`, `timer_create` (here
--                      `create_timer`), `lock`, `mask`, `enqueue`, `register`. The words of the
--                      masks are functions of their own (`init_word`, `mask_word`, `action_word`).
--                      Words is about their bits, Levels about what a thread blocks.
--   Runtime.TimerQueue src/tq.rs: `TimerQueue` and `NotReady`; Deadlines is about its operations.
--                      Handler is the loop over it that timer_body.rs emits, Alarm what the loop's
--                      calls do to the kernel, Ends is about the whole loop.
--   Runtime.Preemption the thread as a machine: handlers interrupt each other and take resources by
--                      `lock` of src/export.rs, one cell write or mask change at a time. Nesting and
--                      Exclusion are about who has what, Runs about `lock` as such steps.
--   Runtime.Channel    what the emitted bodies of spawn_body.rs, schedule_body.rs, timer_body.rs and
--                      dispatchers.rs (macros/src/codegen/) do to a free queue and a buffer, as a
--                      machine; Delivery is about who reads what.
--   Macros.Ident       macros/src/codegen/util.rs: the identifiers, as lists of code points;
--                      Decimal tells the numbered ones apart.
--   Macros.Collect     the ordered sets and maps of the standard library, as ascending lists; Sorted
--                      and Names are about them.
--   Macros.Syntax      what the macro reads of an application and of its analysis.
--   Macros.Analyze     macros/src/analyze.rs: the assignment of signals. Ranks counts levels,
--                      Assignment is about the signals.
--   Macros.Check       macros/src/check.rs; Enough bounds the signals by it.
--   Macros.Codegen     macros/src/codegen/: Code is the emitted code as data, Groups the helpers of
--                      util.rs; Boot is pre_init.rs, post_init.rs and childs.rs; Spawn is spawn.rs
--                      and spawn_body.rs; Schedule is schedule.rs and schedule_body.rs; Dispatch is
--                      dispatchers.rs, timer_body.rs and timer_queue.rs; Tasks is the buffers of
--                      tasks.rs; Resources is resources_struct.rs, Statics is resources.rs, Locals is
--                      locals.rs; Module is module.rs; Functions is init.rs, idle.rs, the rest of
--                      tasks.rs, and the whole expansion with `main` (codegen.rs); Assertions is
--                      assertions.rs. Boot.Barriers, Boot.Marks, Shared, Spawn.Declared,
--                      Spawn.Served, Schedule.Declared, Schedule.Served, Dispatch.Links,
--                      Dispatch.Entries, Dispatch.Registered, Dispatch.Reached,
--                      Dispatch.Distinct, Tasks.Slots, Resources.WellFormed, Resources.Backing,
--                      Resources.Proxies, Module.Shape, Module.Contexts, Module.Calls and
--                      Functions.Late are about the generated code.
--   Macros.Codegen.Startup  the generated `main` and the threads of the other cores as a machine:
--                      a thread runs one statement at a time, and waits at barriers and for ids.
--                      Invariant and Programs prepare what Releases and Order say of its runs,
--                      Ready tells which statements wait.
--   Macros.Entry       macros/src/lib.rs: the attribute `#[app]`, from the parser's result on.
--   Runtime.Examples and Macros.Examples run the definitions on small values: a toy kernel and an
--   application of two tasks.
--
-- How they interact: the generated `main` calls the functions of Runtime.Signals with the ranges and
-- the signals that Macros.Analyze assigned; a generated spawn takes an index from a free queue,
-- writes a buffer and calls `enqueue`; the signal's handler, a generated dispatcher, reads the buffer
-- and gives the index back; a generated schedule puts an entry into the timer queue, and the timer
-- handler takes due entries out and sends their messages.
--
-- Conventions. Natural numbers stand for `u8`, `u32`, `u64` and `usize`; sums and products of `u8`
-- wrap where they are written `% 2 ^ 8` or by `u8_add` and `u8_sub`, as with overflow checks off.
-- `isize` is a version of ℤ, wrapped to 64 bits. A failed `unwrap`, `expect` or map index is `panic`
-- of Run. Loops are recursions on lists and numbers; the two waiting loops have fuel, one unit for
-- each load, and the timer handler's loop has, one unit for each `lock`; enough of it is what their
-- theorems ask for: up to the load that ends the wait, and more than the queue has entries.
--
-- Parameters. The kernel (Runtime.Kernel.Kernel; the laws of its masks are
-- Runtime.Signals.Levels.Masks and Runtime.Preemption.Sigreturn, after sigprocmask(2), sigaction(2)
-- and sigreturn(2), those of its timers and messages Runtime.TimerQueue.Alarm.Alarm: a timer is set for
-- valid times only, a signal is queued while there is room); the binary heap
-- of the `heapless` crate (Runtime.TimerQueue.BinaryHeap, with the laws IsMinHeap) and its queue
-- (Runtime.Channel.Queue, with the laws IsQueue); the values that the `rtfm_syntax` crate makes
-- (Macros.Syntax.App and Parent), with its methods as functions (of an `Ownership`, with the law
-- Resources.Backing.IsOwnership; of a `Context`, with the law Module.Calls.IsContexts); the orders of
-- the hash sets of assertions.rs (with the law Assertions.HasMembers).
--
-- The machine of Runtime.Preemption is one thread's: its resources are those that only tasks of
-- this thread use, since a lock changes the mask of its own thread alone. Its steps are those of
-- `lock` and of the kernel; what the user's code does between them is left open. That nobody adds
-- to a timer queue between two turns of the handler's loop is an assumption of the model of that
-- loop. The machine of Runtime.Channel is for one task and one sender: the slots of other senders
-- are other ones. An index on its way carries the input that it was taken for, which the program
-- does not keep. Messages arrive in any order there.
--
-- The machine of Macros.Codegen.Startup has more runs than the program. It lets a thread run once its
-- function was handed to `spawn`, while the body of `spawn` (src/export.rs) ignores the function
-- that it is handed; and a statement may return always, while a failed call of the operating system
-- ends its thread in the program. A thread may also stop anywhere here, so that what holds in all
-- states of the machine holds in those of the program, and of a program whose `spawn` runs the
-- function. A statement is one step; a wait is a step that is there once the barrier is released or
-- the id is written, which is what the loops of Runtime.Cells come to; the last statement, `idle` or
-- the pausing loop, counts as run once it is entered.
--
-- Not modelled: attributes and documentation of the emitted code,
-- and the bodies of the user's functions; the macro's error texts; memory orderings;
-- tools/, the examples and the scripts, which are I/O.
pub mod Base
pub mod Runtime
pub mod Macros
