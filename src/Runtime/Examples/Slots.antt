-- ===== src/Runtime/Examples/Slots.antt =====
-- A task's buffer of two slots, and a message on its way (src/ and macros/src/codegen/spawn_body.rs).
use mathlib.Core.List.{
  Mem, Perm, Nodup, Nodup-cons, Nodup-nil, not-mem-nil, perm_append_singleton, mem-cons,
}
use mathlib.Core.List.Perm
use mathlib.Core.Logic.Or
use native.Mathlib.Bridge.{le_prop}
use native.Mathlib.Nat.{ℕ_set}
use linux_rtfm.Base.{
  ℕ, ◌<◌, ◌≡◌, ◌↔◌, refl, subst, Option, none, some, List, [], ◌∷◌, ◌++◌, length, arith,
}
use linux_rtfm.Runtime.Channel.{
  Queue, IsQueue, rejected, message, Flight, Channel, send, receive, sends, Reaches, here, next,
}
use linux_rtfm.Runtime.Channel.Delivery.{InBounds, receive-some, send-rejected}

abbrev take_first : List ℕ → Option (ℕ × List ℕ)
take_first [] = none
take_first (i ∷ is) = some (i, is)

abbrev fifo : Queue
fifo = record {
  State = List ℕ;
  items = λ q. q;
  dequeue = take_first;
  enqueue_unchecked = λ i q. q ++ i ∷ [];
}

fifo_none : (q : List ℕ) → (take_first q ≡ none) ↔ (q ≡ [])
fifo_none [] = (λ _. refl, λ _. refl)
fifo_none (i ∷ is) = (λ h. cc, λ h. cc)

fifo_perm : (q q' : List ℕ) (i : ℕ) → take_first q ≡ some (i, q') → Perm q (i ∷ q')
fifo_perm [] q' i h = cc
fifo_perm (j ∷ js) q' i h =
    let same : j ∷ js ≡ i ∷ q' = cc in subst (λ l. Perm (j ∷ js) l) same (Perm.refl (j ∷ js))

fifo-IsQueue : IsQueue 2 fifo
fifo-IsQueue = record {
  dequeue-none = fifo_none;
  dequeue-perm = fifo_perm;
  enqueue-perm = λ q i room. perm_append_singleton i q;
}

abbrev slots : List ℕ
slots = 0 ∷ 1 ∷ []

only : (i : ℕ) → Mem i (1 ∷ []) → i ≡ 1
only i m = Or.elim (ℕ_set i 1) (mem-cons.0 m) (λ e. e) (λ n. absurd (not-mem-nil n))

apart : ¬ Mem {A = ℕ} 0 (1 ∷ [])
apart m = let e = only 0 m in absurd (omega arith)

slots-Nodup : Nodup slots
slots-Nodup = Nodup-cons.1 (apart, Nodup-cons.1 (not-mem-nil, Nodup-nil))

slots-InBounds : InBounds slots 2
slots-InBounds i m =
    Or.elim le_prop (mem-cons.0 m) (λ e. omega arith) (λ n. let e = only i n in omega arith)

abbrev first : Channel fifo ℕ
first = record { free = slots; inputs = 10 ∷ 11 ∷ []; flights = [] }

abbrev flight : Flight ℕ
flight = record { index = 0; input = 7; place = message }

abbrev sent : Channel fifo ℕ
sent = record { free = 1 ∷ []; inputs = 7 ∷ 11 ∷ []; flights = flight ∷ [] }

run : Reaches fifo first sent
unfolding send
run = next here (sends message 7 first)

receive-some_example : ((receive fifo 0 sent).0 ≡ some 7) × (0 < 2)
receive-some_example =
    receive-some 2 fifo fifo-IsQueue slots (10 ∷ 11 ∷ []) slots-Nodup slots-InBounds refl sent run
      [] [] flight refl

send-rejected_example : ((send fifo message 8 sent).0 ≡ rejected 8) ↔ (length sent.flights ≡ 2)
send-rejected_example =
    send-rejected 2 fifo fifo-IsQueue slots (10 ∷ 11 ∷ []) slots-Nodup slots-InBounds refl sent run
      message 8
