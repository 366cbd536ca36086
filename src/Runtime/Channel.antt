-- ===== src/Runtime/Channel.antt =====
-- What the bodies that macros/src/codegen/spawn_body.rs, schedule_body.rs, timer_body.rs and
-- dispatchers.rs emit do to the free queue and the buffer of one task, for one sender. The queue is
-- that of the `heapless` crate and a parameter; `IsQueue` states what its documentation promises.
pub mod Delivery
use mathlib.Core.List.{Perm}
use linux_rtfm.Base.{
  ℕ, ◌<◌, ◌≡◌, ◌↔◌, Option, none, some, List, [], ◌∷◌, ◌++◌, length, set, get_elem?,
}

-- `spsc::Queue<u8, N>`
pub record Queue : Type 1 where
  pub State : Type 0
  pub items : State → List ℕ
  pub dequeue : State → Option (ℕ × State)
  pub enqueue_unchecked : ℕ → State → State

-- Its laws, for a capacity: what it holds changes only by the element that is put in or taken out,
-- and nothing is taken out exactly if it is empty.
pub record IsQueue (cap : ℕ) (f : Queue) : Type 0 where
  pub dequeue-none : (q : f.State) → (f.dequeue q ≡ none) ↔ (f.items q ≡ [])
  pub dequeue-perm :
      (q q' : f.State) (i : ℕ) → f.dequeue q ≡ some (i, q') → Perm (f.items q) (i ∷ f.items q')
  pub enqueue-perm :
      (q : f.State) (i : ℕ)
      → length (f.items q) < cap
      → Perm (f.items (f.enqueue_unchecked i q)) (i ∷ f.items q)

-- `Result<(), T>`
pub data Outcome (I : Type 0) : Type 0 where
  accepted : Outcome I
  rejected : (input : I) → Outcome I

-- Where an index is that has left the free queue: in the timer queue, or in a message.
pub data Place : Type 0 where
  timer_queue : Place
  message : Place

-- An index on its way. The input that it was taken for is not part of the program's state.
pub record Flight (I : Type 0) : Type 0 where
  pub index : ℕ
  pub input : I
  pub place : Place

pub record Channel (f : Queue) (I : Type 0) : Type 0 where
  pub free : f.State
  pub inputs : List I
  pub flights : List (Flight I)

module _ (f : Queue) {I : Type 0} where
  -- `if let Some(index) = dequeue { inputs[index].write(input); …; Ok(()) } else { Err(input) }`,
  -- where `…` puts the index into a message or into the timer queue.
  unfoldable pub send : Place → I → Channel f I → Outcome I × Channel f I
  send place input c = elim (f.dequeue c.free) [
    | none ↦ (rejected input, c)
    | some (index, free) ↦ (
      accepted,
      record {
        free = free;
        inputs = set c.inputs index input;
        flights = record { index = index; input = input; place = place } ∷ c.flights;
      },
    )
  ]

  -- `let input = inputs[index].read(); fq.split().0.enqueue_unchecked(index);`
  unfoldable pub receive : (index : ℕ) → Channel f I → Option I × Channel f I
  receive index c = (get_elem? c.inputs index, record c { free = f.enqueue_unchecked index c.free })

  pub data Step : Channel f I → Channel f I → Type 0 where
    sends : (place : Place) (input : I) (c : Channel f I) → Step c (send place input c).1
    -- The timer's handler sends the message of an entry that it takes out.
    fires :
        (xs ys : List (Flight I)) (e : Flight I) (c : Channel f I)
        → c.flights ≡ xs ++ e ∷ ys
        → e.place ≡ timer_queue
        → Step c (record c { flights = xs ++ record e { place = message } ∷ ys })
    -- The dispatcher takes a message.
    receives :
        (xs ys : List (Flight I)) (e : Flight I) (c : Channel f I)
        → c.flights ≡ xs ++ e ∷ ys
        → e.place ≡ message
        → Step c (record (receive e.index c).1 { flights = xs ++ ys })

  pub data Reaches (c : Channel f I) : Channel f I → Type 0 where
    here : Reaches c c
    next : {d e : Channel f I} → Reaches c d → Step d e → Reaches c e
