-- ===== src/Macros/Syntax.antt =====
-- What the macro reads of an application and of its analysis. The crate `rtfm_syntax`, which makes
-- both, is not part of the repository: the values are parameters, and so are the methods of its
-- types, `Context::core`, `Context::is_init`, `App::uses_schedule` and the like, as functions.
use linux_rtfm.Base.{ℕ, Bool, Option, List}
use linux_rtfm.Macros.Ident.{Ident}
use linux_rtfm.Macros.Collect.{Map}

pub data Context : Type 0 where
  init : (core : ℕ) → Context
  idle : (core : ℕ) → Context
  hardware_task : (name : Ident) → Context
  software_task : (name : Ident) → Context

-- A `static mut` of a function. Types, expressions and attributes are kept as written.
pub record Local : Type 0 where
  pub cfgs : List Ident
  pub ty : Ident
  pub expr : Ident

pub record Resource : Type 0 where
  pub cfgs : List Ident
  pub is_mut : Bool
  pub ty : Ident

-- An `#[init]` or `#[idle]` function.
pub record Main : Type 0 where
  pub name : Ident
  pub resources : List Ident
  pub schedule : List Ident
  pub spawn : List Ident
  pub locals : List (Ident × Local)

pub record SoftwareTask : Type 0 where
  pub core : ℕ
  pub priority : ℕ
  pub capacity : ℕ
  -- The types of its inputs, as written.
  pub inputs : List Ident
  pub resources : List Ident
  pub schedule : List Ident
  pub spawn : List Ident
  pub locals : List (Ident × Local)

pub record App : Type 0 where
  pub cores : ℕ
  pub inits : Map Main
  pub idles : Map Main
  -- The resources that a hardware task has access to.
  pub hardware_tasks : List (Ident × List Ident)
  pub software_tasks : List (Ident × SoftwareTask)
  pub uses_schedule : ℕ → Bool
  pub spawn_callers : List (Context × List Ident)
  pub schedule_callers : List (Context × List Ident)
  pub core : Context → ℕ
  pub ident : Context → Ident
  pub is_init : Context → Bool
  pub is_idle : Context → Bool
  pub runs_once : Context → Bool
  pub late_resources : List (Ident × Resource)
  -- A resource with its initial value, which a late resource has none of.
  pub resource : Ident → Option (Resource × Option Ident)

pub record TimerQueue : Type 0 where
  pub priority : ℕ
  pub ceiling : ℕ
  pub capacity : ℕ
  pub tasks : List Ident

-- `Ownership` by what the macro asks of it: the ceiling if it is `Shared`, and its methods.
pub record Ownership : Type 0 where
  pub ceiling : Option ℕ
  pub is_owned : Bool
  pub needs_lock : ℕ → Bool

-- One of `App::resources`: its name, itself, its initial value, the core that it is on.
pub record Placed : Type 0 where
  pub name : Ident
  pub res : Resource
  pub expr : Option Ident
  pub core : Option ℕ

-- `rtfm_syntax::analyze::Analysis`
pub record Parent : Type 0 where
  pub timer_queues : Map TimerQueue
  -- By task and sender; a ceiling where the queue is locked.
  pub free_queues : List (Ident × Map (Option ℕ))
  -- By receiver, priority and sender.
  pub channels : Map (Map (Map (List Ident)))
  pub used_cores : List ℕ
  pub late_resources : Map (List Ident)
  -- By receiver: the cores that it waits for.
  pub initialization_barriers : Map (List ℕ)
  pub send_types : Map (List Ident)
  pub sync_types : Map (List Ident)
  pub ownerships : List (Ident × Ownership)
  -- `App::resources` of this analysis.
  pub resources : List Placed
