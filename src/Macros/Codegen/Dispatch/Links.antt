-- ===== src/Macros/Codegen/Dispatch/Links.antt =====
-- What macros/src/codegen/spawn_body.rs and timer_body.rs send is what the dispatchers of
-- dispatchers.rs take.
use linux_rtfm.Base.Rounds.{mem-map_run, mem-flat_map_run}
use mathlib.Core.List.{Memᴰ}
use linux_rtfm.Base.{
  ℕ, ◌^◌, ◌<◌, ◌≡◌, refl, ap, ap₂, ◌∙◌, sym, subst, Option, some, List, [], ◌∷◌, arith,
}
use linux_rtfm.Base.Run.{done, ◌>>=◌, >>=-eq-done, done-inj, unwrap, flat_map_run}
use linux_rtfm.Runtime.Signals.{message}
use linux_rtfm.Macros.Ident.{Ident, rt_ident, task_ident, inputs_ident, fq_ident, spawn_t_ident}
use linux_rtfm.Macros.Collect.{Map, get, find}
use linux_rtfm.Macros.Syntax.{App, Context, SoftwareTask}
use linux_rtfm.Macros.Analyze.{Analysis, Signals}
use linux_rtfm.Macros.Codegen.Code.{Arm, TimerBody, SpawnBody, Dequeue, direct, locked}
use linux_rtfm.Macros.Codegen.Boot.{signal_of}
use linux_rtfm.Macros.Codegen.Spawn.{spawn_body, dequeue_of, instants_of, thread_of}
use linux_rtfm.Runtime.Kernel.{Kernel}
use linux_rtfm.Macros.Codegen.Dispatch.{
  arm, channel_arms, timer_at, DispatchItem, dispatcher, timer_arm, received, variants,
  handler_body, spawn_enum, handler,
}

-- The free queue that a body takes its index from.
abbrev pub queue : Dequeue → Ident
queue (direct fq) = fq
queue (locked fq) = fq

-- The arm that undoes a body: the same variant, buffers and free queue, and the task called.
abbrev pub counterpart : (name : Ident) → SpawnBody → Arm
counterpart name body = record {
  variant = body.enqueue.variant;
  inputs = body.inputs;
  instants = body.write_instant;
  fq = queue body.dequeue;
  task = name;
}

-- The items of the dispatcher that a body's message names.
abbrev pub items_of : SoftwareTask → SpawnBody → List Arm → Option TimerBody → List DispatchItem
items_of task body arms timer =
    spawn_enum body.enqueue.t (variants arms)
    ∷ handler (rt_ident body.enqueue.signo) task.priority (handler_body body.enqueue.t arms timer)
    ∷ []

-- They are all the items, and one of the arms is the body's counterpart.
abbrev pub Dispatched : (name : Ident) → SoftwareTask → SpawnBody → List DispatchItem → Type 0
Dispatched name task body items =
    (arms : List Arm) × (timer : Option TimerBody) × (items_of task body arms timer ≡ items)
    × Memᴰ (counterpart name body) arms

queue-dequeue_of :
    (app : App) (context : Context) (fq : Ident) → queue (dequeue_of app context fq) ≡ fq
unfolding dequeue_of
queue-dequeue_of app context fq = ground arith

-- The body of a known task with a known signal.
abbrev sent : App → Context → Ident → SoftwareTask → (signo : ℕ) → SpawnBody
sent app context name task signo = record {
  dequeue = dequeue_of app context (fq_ident name (app.core context));
  inputs = inputs_ident name;
  write_instant = instants_of app task.core name;
  enqueue = record {
    tid = thread_of app task.core;
    signo = signo;
    t = spawn_t_ident task.core task.priority;
    variant = task_ident name (app.core context);
  };
}

module _ (app : App) (analysis : Analysis) (context : Context) (name : Ident) where
  pub spawn_body-eq-done :
      {task : SoftwareTask} {body : SpawnBody}
      → find name app.software_tasks ≡ some task
      → spawn_body context name app analysis ≡ done body
      → (signo : ℕ) × (signal_of analysis task.core task.priority ≡ done signo)
        × (sent app context name task signo ≡ body)
  unfolding spawn_body
  spawn_body-eq-done {task} {body} ht hb =
      let (task', e, h1) = >>=-eq-done (unwrap (find name app.software_tasks)) _ hb in
      let (signo, hs, h2) = >>=-eq-done (signal_of analysis task'.core task'.priority) _ h1 in
      let et = done-inj (sym e ∙ ap unwrap ht) in
      (
        signo,
        subst (λ t. signal_of analysis t.core t.priority ≡ done signo) et hs,
        subst (λ t. sent app context name t signo ≡ body) et (done-inj h2),
      )

  arm-sent :
      {task : SoftwareTask} (signo : ℕ)
      → find name app.software_tasks ≡ some task
      → arm app task.core (app.core context) name
        ≡ done (counterpart name (sent app context name task signo))
  unfolding arm
  arm-sent signo ht = rw (ht, queue-dequeue_of) refl

  -- The dispatcher's items and an arm for the sender's variant, with the signal known.
  dispatcher-sent :
      {task : SoftwareTask} (signo : ℕ) (signals : Signals) (channels : Map (List Ident))
      (tasks : List Ident) {items : List DispatchItem}
      → find name app.software_tasks ≡ some task
      → get task.core analysis.signals ≡ some signals
      → Memᴰ (app.core context, tasks) channels
      → Memᴰ name tasks
      → signal_of analysis task.core task.priority ≡ done signo
      → dispatcher app analysis task.core signals (task.priority, channels) ≡ done items
      → Dispatched name task (sent app context name task signo) items
  unfolding dispatcher channel_arms signal_of
  dispatcher-sent {task} signo signals channels tasks {items} ht hs hc hn hsigno hd =
      let (arms, harms, h1) =
        >>=-eq-done (flat_map_run (channel_arms app task.core) channels) _ hd in
      let (rt, hrt, h2) = >>=-eq-done (unwrap (get task.priority signals.map)) _ h1 in
      let (timer, htimer, h3) = >>=-eq-done (timer_at app analysis task.core task.priority) _ h2 in
      let (own, hown, inside) = mem-flat_map_run (channel_arms app task.core) channels harms hc in
      let same = ap (λ m. unwrap m >>= λ s. unwrap (get task.priority s.map)) hs in
      (
        arms,
        timer,
        subst (λ r. items_of task (sent app context name task r) arms timer ≡ items)
            (done-inj (sym hrt ∙ sym same ∙ hsigno)) (done-inj h3),
        inside _
            (mem-map_run (arm app task.core (app.core context)) tasks hown hn (arm-sent signo ht)),
      )

  -- If a task is known, its core has signals, the channel of the sender's core names it, and the
  -- bodies of its spawn and of the dispatcher for its core and priority are generated: the
  -- dispatcher's items are the enum that the spawn's message names and the handler of the signal
  -- that the message is sent to, and one of its arms is for the message's variant, reads the
  -- buffers that the spawn writes, gives the index back to the free queue that the spawn takes it
  -- from, and calls the task.
  pub dispatcher-spawn_body :
      {task : SoftwareTask} {body : SpawnBody} (signals : Signals) (channels : Map (List Ident))
      (tasks : List Ident) {items : List DispatchItem}
      → find name app.software_tasks ≡ some task
      → get task.core analysis.signals ≡ some signals
      → Memᴰ (app.core context, tasks) channels
      → Memᴰ name tasks
      → spawn_body context name app analysis ≡ done body
      → dispatcher app analysis task.core signals (task.priority, channels) ≡ done items
      → Dispatched name task body items
  dispatcher-spawn_body {task} {body} signals channels tasks {items} ht hs hc hn hb hd =
      let (signo, hsigno, e) = spawn_body-eq-done ht hb in
      subst (λ b. Dispatched name task b items) e
        (dispatcher-sent signo signals channels tasks ht hs hc hn hsigno hd)

-- The timer handler of a core sends for a task just the message that a spawn of the task from
-- that core sends, and its generation panics where that of the spawn does.
pub timer_arm-spawn_body :
    (app : App) (analysis : Analysis) (context : Context) (name : Ident)
    → timer_arm app analysis (app.core context) name ≡ (
        spawn_body context name app analysis >>= λ body.
        done (record { task = name; send = body.enqueue }))
unfolding timer_arm spawn_body
timer_arm-spawn_body app analysis context name = ground arith

-- Of a message that `enqueue` packs from a task and an index, each below 256, a handler reads the
-- same two.
pub received-message :
    (k : Kernel) (task index : ℕ)
    → task < 2 ^ 8
    → index < 2 ^ 8
    → received (message k task index) ≡ (task, index)
unfolding received
received-message k task index ht hi = ap₂ (λ t i. (t, i)) (omega arith) (omega arith)
