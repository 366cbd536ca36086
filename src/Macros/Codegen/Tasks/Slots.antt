-- ===== src/Macros/Codegen/Tasks/Slots.antt =====
-- The slots of a task's buffers: macros/src/codegen/tasks.rs sizes the buffers, and the statements of
-- pre_init.rs hand every slot to the free queue of one sender.
use linux_rtfm.Base.{
  ℕ, zero, suc, ◌+◌, ◌*◌, ◌%◌, ◌^◌, ◌<◌, ◌≡◌, refl, sym, ap, ap₂, ◌∙◌, subst, Option, some, List,
  [], ◌∷◌, ◌++◌, map, length, All, arith,
}
use linux_rtfm.Base.Bits.{u8_add}
use linux_rtfm.Base.Run.{done, >>=-eq-done, done-inj, unwrap}
use linux_rtfm.Macros.Ident.{Ident, fq_ident}
use linux_rtfm.Macros.Collect.{Map, find}
use linux_rtfm.Macros.Syntax.{App, SoftwareTask}
use linux_rtfm.Macros.Codegen.Code.{Stmt, reset_index, fill_queue}
use linux_rtfm.Macros.Codegen.Boot.{keys, fill_queues}
use linux_rtfm.Macros.Codegen.Tasks.{buffer_capacity}

-- `for _ in 0..cap { fq.enqueue_unchecked(index); index += 1; }`: what is enqueued, and `index` then.
unfoldable pub fill : (cap index : ℕ) → List ℕ × ℕ
fill zero index = ([], index)
fill (suc cap) index = let (rest, index') = fill cap (u8_add index 1) in (index ∷ rest, index')

-- The contents of the queues that the statements fill, in their order.
unfoldable pub run_fills : List Stmt → (index : ℕ) → List (Ident × List ℕ)
unfolding fill
run_fills [] index = []
run_fills (reset_index ∷ stmts) index = run_fills stmts 0
run_fills (fill_queue fq cap ∷ stmts) index =
    let (slots, index') = fill cap index in (fq, slots) ∷ run_fills stmts index'
run_fills (stmt ∷ stmts) index = run_fills stmts index

abbrev pub iota : (first count : ℕ) → List ℕ
iota first zero = []
iota first (suc count) = first ∷ iota (suc first) count

iota-append : (i m n count : ℕ) → count ≡ m + n → iota i count ≡ iota i m ++ iota (i + m) n
iota-append i zero n count h =
    let e : i ≡ i + 0 = omega arith in let e' : count ≡ n = omega arith in ap₂ iota e e'
iota-append i (suc m) n zero h = absurd (omega arith)
iota-append i (suc m) n (suc count) h =
    let e : suc i + m ≡ i + suc m = omega arith in
    ap (λ l. i ∷ l)
      (iota-append (suc i) m n count (omega arith) ∙ ap (λ j. iota (suc i) m ++ iota j n) e)

-- Stepping `index` to a `next` that it is known to be.
fill-suc :
    (cap index next : ℕ)
    → u8_add index 1 ≡ next
    → fill (suc cap) index ≡ (index ∷ (fill cap next).0, (fill cap next).1)
unfolding fill
fill-suc cap index next h = rw (sym h) refl

fill-iota : (cap index : ℕ) → index + cap < 2 ^ 8 → fill cap index ≡ (iota index cap, index + cap)
unfolding fill
fill-iota zero index h = let e : index ≡ index + 0 = omega arith in ap (λ i. ([], i)) e
fill-iota (suc cap) index h =
    let e : suc index + cap ≡ index + suc cap = omega arith in
    fill-suc cap index (suc index) (omega arith)
    ∙ ap (λ r. (index ∷ r.0, r.1)) (fill-iota cap (suc index) (omega arith))
    ∙ ap (λ i. (index ∷ iota (suc index) cap, i)) e

-- The contents of the queues, one after the other.
abbrev pub slots : List (Ident × List ℕ) → List ℕ
slots [] = []
slots ((fq, own) ∷ queues) = own ++ slots queues

abbrev pub queue_names : List (Ident × List ℕ) → List Ident
queue_names [] = []
queue_names ((fq, own) ∷ queues) = fq ∷ queue_names queues

-- Every queue has `cap` slots, together they have the slots from `first` on, in order, and the
-- queues are those of the senders.
abbrev Fills : (name : Ident) (senders : List ℕ) (cap first : ℕ) → List (Ident × List ℕ) → Type 0
Fills name senders cap first queues =
    (queue_names queues ≡ map (fq_ident name) senders)
    × All (λ q. length q.1 ≡ cap) queues
    × (slots queues ≡ iota first (cap * length senders))

length-iota : (first count : ℕ) → length (iota first count) ≡ count
length-iota first zero = refl
length-iota first (suc count) = ap suc (length-iota (suc first) count)

run_fills-Fills :
    (name : Ident) (senders : List ℕ) (cap index : ℕ)
    → index + cap * length senders < 2 ^ 8
    → Fills name senders cap index
        (run_fills (map (λ sender. fill_queue (fq_ident name sender) cap) senders) index)
unfolding run_fills
run_fills-Fills name [] cap index h =
    let e : 0 ≡ cap * 0 = omega arith in (refl, tt, ap (iota index) e)
run_fills-Fills name (s ∷ senders) cap index h =
    let one : cap * suc (length senders) ≡ cap + cap * length senders = omega arith in
    let rest = run_fills-Fills name senders cap (index + cap) (omega (arith, one)) in
    rw (fill-iota cap index (omega (arith, one))) (
      ap (λ l. fq_ident name s ∷ l) rest.0,
      (length-iota index cap, rest.1),
      ap (λ l. iota index cap ++ l) rest.2 ∙ sym (iota-append index cap _ _ one),
    )

length-keys {ℓ} : {V : Type ℓ} (m : Map V) → length (keys m) ≡ length m
length-keys [] = refl
length-keys ((k, v) ∷ m) = ap suc (length-keys m)

fill_queues-eq-done :
    (app : App) (name : Ident) (senders : Map (Option ℕ)) (task : SoftwareTask) (stmts : List Stmt)
    → find name app.software_tasks ≡ some task
    → fill_queues app (name, senders) ≡ done stmts
    → reset_index ∷ map (λ sender. fill_queue (fq_ident name sender) task.capacity) (keys senders)
      ≡ stmts
unfolding fill_queues
fill_queues-eq-done app name senders task stmts ht h =
    let (task', e, h1) = >>=-eq-done (unwrap (find name app.software_tasks)) _ h in
    let et = done-inj (sym e ∙ ap unwrap ht) in
    subst
      (λ t.
        reset_index ∷ map (λ sender. fill_queue (fq_ident name sender) t.capacity) (keys senders)
        ≡ stmts)
      et (done-inj h1)

-- With fewer than 256 senders and `capacity * senders < 256`, the statements that `pre_init`
-- emits for a known task, run with whatever `index` the statements before them leave, fill the
-- queue of each sender with as many slots as the task's capacity, and the contents of the queues,
-- one after the other, are 0, 1, … up to the length of the task's buffers: each slot once.
pub fill_queues-Fills :
    (app : App) (name : Ident) (senders : Map (Option ℕ)) (task : SoftwareTask) (stmts : List Stmt)
    (index : ℕ)
    → find name app.software_tasks ≡ some task
    → task.capacity * length senders < 2 ^ 8
    → length senders < 2 ^ 8
    → fill_queues app (name, senders) ≡ done stmts
    → (queue_names (run_fills stmts index) ≡ map (fq_ident name) (keys senders))
      × All (λ q. length q.1 ≡ task.capacity) (run_fills stmts index)
      × (slots (run_fills stmts index) ≡ iota 0 (buffer_capacity task senders))
unfolding run_fills buffer_capacity
fill_queues-Fills app name senders task stmts index ht hc hs h =
    let n = length-keys senders in
    let same : length senders % 2 ^ 8 ≡ length senders = omega arith in
    let total : task.capacity * length senders ≡ task.capacity * (length senders % 2 ^ 8) % 2 ^ 8 =
      rw (same) (omega arith) in
    let small : 0 + task.capacity * length (keys senders) < 2 ^ 8 = rw (n) (omega arith) in
    let (names, sizes, all) = run_fills-Fills name (keys senders) task.capacity 0 small in
    rw (sym (fill_queues-eq-done app name senders task stmts ht h))
      (names, sizes, all ∙ ap (iota 0) (rw (n) total))
