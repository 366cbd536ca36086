-- ===== src/Runtime/Channel/Delivery.antt =====
-- No slot of a task's buffer is written while its input is on the way: what a handler reads is what
-- the message was sent for (macros/src/codegen/spawn_body.rs, dispatchers.rs).
use mathlib.Core.List.{
  Mem, Perm, Nodup, Nodup-cons, perm_middle, append-nil, mem-cons_self, mem-cons_of_mem,
  mem-append_right,
}
use mathlib.Core.List.Perm
use linux_rtfm.Base.{
  ℕ, suc, ◌<◌, ◌≡◌, ◌≢◌, ◌↔◌, refl, sym, ap, ◌∙◌, subst, none, some, List, [], ◌∷◌, ◌++◌, length,
  set, get_elem?, All, length-append, length-Perm, length-set, get_elem?-set_self, get_elem?-set_ne,
  Option-cases, inl, inr, arith,
}
use linux_rtfm.Runtime.Channel.{
  Queue, IsQueue, rejected, Place, message, Flight, Channel, send, receive, Step, sends, fires,
  receives, Reaches, here, next,
}

module _ {I : Type 0} where
  abbrev pub indices : List (Flight I) → List ℕ
  indices [] = []
  indices (e ∷ es) = e.index ∷ indices es

  indices-append : (xs ys : List (Flight I)) → indices (xs ++ ys) ≡ indices xs ++ indices ys
  indices-append [] ys = refl
  indices-append (x ∷ xs) ys = ap (λ l. x.index ∷ l) (indices-append xs ys)

  abbrev Kept : List I → Flight I → Type 0
  Kept inputs e = get_elem? inputs e.index ≡ some e.input

  All-Kept :
      (inputs : List I) (i : ℕ) (input : I) (es : List (Flight I))
      → ((j : ℕ) → Mem j (indices es) → i ≢ j)
      → All (Kept inputs) es
      → All (Kept (set inputs i input)) es
  All-Kept inputs i input [] apart kept = tt
  All-Kept inputs i input (e ∷ es) apart kept = (
    get_elem?-set_ne inputs i e.index input (apart e.index mem-cons_self) ∙ kept.0,
    All-Kept inputs i input es (λ j m. apart j (mem-cons_of_mem e.index m)) kept.1,
  )

  All-middle :
      (P : Flight I → Type 0) (xs ys : List (Flight I)) (e : Flight I)
      → All P (xs ++ e ∷ ys)
      → P e × All P (xs ++ ys)
  All-middle P [] ys e h = h
  All-middle P (x ∷ xs) ys e h = let (p, rest) = All-middle P xs ys e h.1 in (p, (h.0, rest))

  All-put :
      (P : Flight I → Type 0) (xs ys : List (Flight I)) (e : Flight I)
      → P e
      → All P (xs ++ ys)
      → All P (xs ++ e ∷ ys)
  All-put P [] ys e p h = (p, h)
  All-put P (x ∷ xs) ys e p h = (h.0, All-put P xs ys e p h.1)

length-zero : (l : List ℕ) → length l ≡ 0 → l ≡ []
length-zero [] h = refl
length-zero (x ∷ xs) h = absurd (omega arith)

abbrev pub InBounds : List ℕ → ℕ → Type 0
InBounds l n = (i : ℕ) → Mem i l → i < n

module _ (cap : ℕ) (f : Queue) (laws : IsQueue cap f) {I : Type 0} where
  open laws use {dequeue-none, dequeue-perm, enqueue-perm}

  -- Each index is in the free queue or on its way.
  abbrev used : Channel f I → List ℕ
  used c = f.items c.free ++ indices c.flights

  abbrev pub IsGood : Channel f I → Type 0
  IsGood c =
      Nodup (used c)
      × InBounds (used c) (length c.inputs)
      × (length (used c) ≡ cap)
      × All (Kept c.inputs) c.flights

  -- A change that moves indices around.
  moved :
      (c d : Channel f I)
      → Perm (used d) (used c)
      → length d.inputs ≡ length c.inputs
      → All (Kept d.inputs) d.flights
      → IsGood c
      → IsGood d
  moved c d p same kept good = (
    Perm.nodup (Perm.symm p) good.0,
    (λ i m. subst (λ n. i < n) (sym same) (good.1 i ((Perm.mem_iff p).0 m))),
    length-Perm p ∙ good.2,
    kept,
  )

  send-IsGood :
      (place : Place) (input : I) (c : Channel f I) → IsGood c → IsGood (send f place input c).1
  unfolding send
  send-IsGood place input c good = elim (Option-cases (f.dequeue c.free)) [
    | inl empty ↦ rw (empty, send) good
    | inr ((i, q), e) ↦
        let took = Perm.append_right (indices c.flights) (dequeue-perm c.free q i e) in
        let fresh = Nodup-cons.0 (Perm.nodup took good.0) in
        let room = good.1 i ((Perm.mem_iff (Perm.symm took)).0 mem-cons_self) in
        rw (e, send)
          (moved c
            (record {
              free = q;
              inputs = set c.inputs i input;
              flights = record { index = i; input = input; place = place } ∷ c.flights;
            })
            (Perm.trans (perm_middle (f.items q) (indices c.flights)) (Perm.symm took))
            (length-set c.inputs i input)
            (
              get_elem?-set_self c.inputs i input room,
              All-Kept c.inputs i input c.flights
                  (λ j m same. fresh.0 (
                    mem-append_right (f.items q)
                      (subst (λ j. Mem j (indices c.flights)) (sym same) m)))
                  good.3,
            )
            good)
  ]

  fires-IsGood :
      (xs ys : List (Flight I)) (e : Flight I) (c : Channel f I)
      → c.flights ≡ xs ++ e ∷ ys
      → IsGood c
      → IsGood (record c { flights = xs ++ record e { place = message } ∷ ys })
  fires-IsGood xs ys e c at good =
      let d = record e { place = message } in
      let (kept, others) =
        All-middle (Kept c.inputs) xs ys e (subst (All (Kept c.inputs)) at good.3) in
      let same : indices (xs ++ d ∷ ys) ≡ indices c.flights =
        indices-append xs (d ∷ ys) ∙ sym (indices-append xs (e ∷ ys)) ∙ ap indices (sym at) in
      moved c (record c { flights = xs ++ d ∷ ys })
        (subst (λ l. Perm (f.items c.free ++ l) (used c)) (sym same) (Perm.refl (used c))) refl
        (All-put (Kept c.inputs) xs ys d kept others) good

  -- With an index on its way, the free queue has room.
  has_room :
      (xs ys : List (Flight I)) (e : Flight I) (c : Channel f I)
      → c.flights ≡ xs ++ e ∷ ys
      → IsGood c
      → length (f.items c.free) < cap
  has_room xs ys e c at good =
      let l1 = length-append (f.items c.free) (indices c.flights) in
      let l2 = length-append (indices xs) (e.index ∷ indices ys) in
      let l3 = ap length (ap indices at ∙ indices-append xs (e ∷ ys)) in omega (arith, good.2)

  receives-IsGood :
      (xs ys : List (Flight I)) (e : Flight I) (c : Channel f I)
      → c.flights ≡ xs ++ e ∷ ys
      → IsGood c
      → IsGood (record (receive f e.index c).1 { flights = xs ++ ys })
  unfolding receive
  receives-IsGood xs ys e c at good =
      let others = All-middle (Kept c.inputs) xs ys e (subst (All (Kept c.inputs)) at good.3) in
      let q = f.enqueue_unchecked e.index c.free in
      let back = enqueue-perm c.free e.index (has_room xs ys e c at good) in
      let put : Perm (f.items q ++ (indices xs ++ indices ys))
          (f.items c.free ++ (indices xs ++ e.index ∷ indices ys)) =
        Perm.trans (Perm.append_right (indices xs ++ indices ys) back) (
          Perm.symm (
            Perm.trans (Perm.append_left (f.items c.free) (perm_middle (indices xs) (indices ys)))
              (perm_middle (f.items c.free) (indices xs ++ indices ys)))) in
      moved c (record { free = q; inputs = c.inputs; flights = xs ++ ys })
        (subst (λ l. Perm (f.items q ++ l) (used c)) (sym (indices-append xs ys))
          (subst (λ l. Perm (f.items q ++ (indices xs ++ indices ys)) (f.items c.free ++ l))
            (sym (ap indices at ∙ indices-append xs (e ∷ ys))) put))
        refl others.1 good

  Step-IsGood : {c d : Channel f I} → Step f c d → IsGood c → IsGood d
  Step-IsGood (sends place input c) good = send-IsGood place input c good
  Step-IsGood (fires xs ys e c at waits) good = fires-IsGood xs ys e c at good
  Step-IsGood (receives xs ys e c at sent) good = receives-IsGood xs ys e c at good

  Reaches-IsGood : {c d : Channel f I} → IsGood c → Reaches f c d → IsGood d
  Reaches-IsGood good here = good
  Reaches-IsGood good (next run step) = Step-IsGood step (Reaches-IsGood good run)

  length-indices : (es : List (Flight I)) → length (indices es) ≡ length es
  length-indices [] = refl
  length-indices (e ∷ es) = ap suc (length-indices es)

  send-dequeue :
      (place : Place) (input : I) (c : Channel f I)
      → ((send f place input c).0 ≡ rejected input) ↔ (f.dequeue c.free ≡ none)
  unfolding send
  send-dequeue place input c = elim (Option-cases (f.dequeue c.free)) [
    | inl empty ↦ rw (empty, send) ((λ _. refl), (λ _. refl))
    | inr ((i, q), e) ↦ rw (e, send) ((λ h. cc), (λ h. cc))
  ]

  -- Over the slots that are in use for the sender, each one in the free queue at first.
  module _ (q : f.State) (inputs : List I) (distinct : Nodup (f.items q))
      (within : InBounds (f.items q) (length inputs)) (full : length (f.items q) ≡ cap)
      (c : Channel f I)
      (run : Reaches f (record { free = q; inputs = inputs; flights = [] }) c) where
    first-IsGood : IsGood (record { free = q; inputs = inputs; flights = [] })
    first-IsGood =
        let e = append-nil (f.items q) in
        (
          subst Nodup (sym e) distinct,
          subst (λ l. InBounds l (length inputs)) (sym e) within,
          ap length e ∙ full,
          tt,
        )

    -- Over a free queue with the laws `IsQueue`, with slots that are distinct, within the buffer
    -- and as many as the queue's capacity, all in the queue at first: in every state that the
    -- steps of spawns, schedules, timer firings and dispatches reach, for each index on its way,
    -- the dispatcher reads the input that the index was taken for, and the index is within the
    -- buffer.
    pub receive-some :
        (xs ys : List (Flight I)) (e : Flight I)
        → c.flights ≡ xs ++ e ∷ ys
        → ((receive f e.index c).0 ≡ some e.input) × (e.index < length c.inputs)
    unfolding receive
    receive-some xs ys e at =
        let good = Reaches-IsGood first-IsGood run in
        let m : Mem e.index (indices c.flights) =
          subst (Mem e.index) (sym (ap indices at ∙ indices-append xs (e ∷ ys)))
            (mem-append_right (indices xs) mem-cons_self) in
        (
          (All-middle (Kept c.inputs) xs ys e (subst (All (Kept c.inputs)) at good.3)).0,
          good.1 e.index (mem-append_right (f.items c.free) m),
        )

    -- Over a free queue with the laws `IsQueue`, with slots that are distinct, within the buffer
    -- and as many as the queue's capacity, all in the queue at first: in every state that the
    -- steps reach, a spawn or a schedule gives its input back exactly if the number of indices on
    -- their way is that of the slots.
    pub send-rejected :
        (place : Place) (input : I)
        → ((send f place input c).0 ≡ rejected input) ↔ (length c.flights ≡ cap)
    send-rejected place input =
        let good = Reaches-IsGood first-IsGood run in
        let l1 = length-append (f.items c.free) (indices c.flights) in
        let l2 = length-indices c.flights in
        let (to, from) = send-dequeue place input c in
        let (to', from') = dequeue-none c.free in
        (
          (λ h. let l3 = ap length (to' (to h)) in omega (arith, good.2)),
          (λ h. from (from' (length-zero (f.items c.free) (omega (arith, good.2))))),
        )
