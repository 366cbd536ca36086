-- ===== src/Macros/Codegen/Code.antt =====
-- The code that the macro emits, as data: the statements of `main` and of the other threads, and the
-- bodies of the functions that send and receive messages. Attributes and documentation are left out.
use linux_rtfm.Base.{ℕ, Bool, Option, List}
use linux_rtfm.Runtime.Signals.{Range}
use linux_rtfm.Macros.Ident.{Ident}

-- A thread id in an emitted expression: none, `tgid`, or `tid`.
pub data ThreadArg : Type 0 where
  no_thread : ThreadArg
  tgid_var : ThreadArg
  tid_var : ThreadArg

pub data Stmt : Type 0 where
  init_runtime : (signo_max : Option ℕ) → Stmt
  -- `let mut index = 0;`
  reset_index : Stmt
  -- `for _ in 0..cap { fq.enqueue_unchecked(index); index += 1; }`
  fill_queue : (fq : Ident) (cap : ℕ) → Stmt
  -- `let tgid = getpid(); TGID.init(tgid);`
  init_tgid : Stmt
  init_timer : (timer : Ident) → ThreadArg → (signo : ℕ) → Stmt
  register : Range → (priority : ℕ) (handler : Ident) → Stmt
  init_tid : (tid : Ident) → ThreadArg → Stmt
  wait_tid : (tid : Ident) → Stmt
  -- `let tid = spawn(child);`
  spawn_child : (child : Ident) → Stmt
  set_affinity : (core : ℕ) → Stmt
  call_init : (name : Ident) → Stmt
  write_late : (name : Ident) → Stmt
  release_barrier : (barrier : Ident) → Stmt
  wait_barrier : (barrier : Ident) → Stmt
  mask : Range → (current ceiling : ℕ) (block : Bool) → Stmt
  call_idle : (name : Ident) → Stmt
  loop_pause : Stmt

pub data Static : Type 0 where
  static_pid : (name : Ident) → Static
  static_barrier : (name : Ident) → Static

-- The pair (const_app, stmts) that the generators of `main` return.
pub record Output : Type 0 where
  pub const_app : List Static
  pub stmts : List Stmt

-- How a body takes an index from a free queue: `fq.dequeue()`, or under the queue's lock.
pub data Dequeue : Type 0 where
  direct : (fq : Ident) → Dequeue
  locked : (fq : Ident) → Dequeue

-- `enqueue(TGID.get(), tid, signo, t::variant as u8, index)`
pub record Message : Type 0 where
  pub tid : Option Ident
  pub signo : ℕ
  pub t : Ident
  pub variant : Ident

pub record SpawnBody : Type 0 where
  pub dequeue : Dequeue
  pub inputs : Ident
  pub write_instant : Option Ident
  pub enqueue : Message

-- The timer queue's entry is `NotReady { instant, index, task: t::task }`.
pub record ScheduleBody : Type 0 where
  pub dequeue : Dequeue
  pub instants_write : Option Ident
  pub inputs : Ident
  pub t : Ident
  pub task : Ident
  pub tq : Ident
  pub tq_locked : Bool
  -- The thread to signal, with `TGID`.
  pub tid : Option Ident
  pub signo : ℕ

-- An arm of the timer handler's match.
pub record TimerArm : Type 0 where
  pub task : Ident
  pub send : Message

pub record TimerBody : Type 0 where
  pub timer : Ident
  pub tq : Ident
  pub t : Ident
  pub arms : List TimerArm

-- An arm of a dispatcher's match: read the input and the instant, give the index back, call.
pub record Arm : Type 0 where
  pub variant : Ident
  pub inputs : Ident
  pub instants : Option Ident
  pub fq : Ident
  pub task : Ident

-- `impl Mutex for name`
pub record Mutex : Type 0 where
  pub name : Ident
  pub ceiling : ℕ
  pub range : Range
