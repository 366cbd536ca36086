-- ===== src/Macros/Analyze/Assignment.antt =====
-- macros/src/analyze.rs: every level of every core has a signal of its own, higher levels have lower
-- signals, and what `mask` and `register` of src/export.rs compute agrees with the assignment.
use mathlib.Core.Option.{bind}
use native.Mathlib.Decide.{dec_lt}
use native.Mathlib.Nat.{zero-add}
use linux_rtfm.Base.{
  ℕ, suc, ◌+◌, ◌-◌, ◌≤◌, ◌<◌, ◌≡◌, ◌↔◌, refl, sym, ◌∙◌, subst, true, Option, none, some, List, [],
  ◌∷◌, length, ==_iff, if◌then◌else◌, arith, All,
}
use linux_rtfm.Base.Bits.{u8_sub}
use linux_rtfm.Runtime.Signals.{handler_signal}
use linux_rtfm.Macros.Collect.{get, elem}
use linux_rtfm.Macros.Collect.Sorted.{Asc, above}
use linux_rtfm.Macros.Syntax.{App, Parent}
use linux_rtfm.Macros.Analyze.{range, priorities, core_signals, app_analysis}
use linux_rtfm.Macros.Analyze.Ranks.{
  count, sum, priorities-Asc, get-core_signals, length-core_signals, get-assign, sum-le_start,
}

-- The higher of two members has fewer above it, and fewer than all are above a member.
above_lt :
    (p q : ℕ) (xs : List ℕ)
    → p < q
    → (above q xs ≤ above p xs) × (elem q xs ≡ true → above q xs < above p xs)
unfolding above elem
above_lt p q [] h = (omega arith, λ e. cc)
above_lt p q (x ∷ xs) h = ground (arith, above_lt p q xs h)

above-lt-length :
    (p : ℕ) (xs : List ℕ) → (above p xs ≤ length xs) × (elem p xs ≡ true → above p xs < length xs)
unfolding above elem
above-lt-length p [] = (omega arith, λ e. cc)
above-lt-length p (x ∷ xs) = ground (arith, above-lt-length p xs)

raise :
    (x a b : ℕ) (xs : List ℕ)
    → All (λ y. x < y) xs
    → All (λ y. (a < y) × (y ≤ b)) xs
    → All (λ y. (x < y) × (y ≤ b)) xs
raise x a b [] h k = tt
raise x a b (y ∷ ys) h k = ((h.0, k.0.1), raise x a b ys h.1 k.1)

-- An ascending list between two bounds is no longer than the bounds allow.
Asc-length : (a b : ℕ) (xs : List ℕ) → Asc xs → All (λ y. (a < y) × (y ≤ b)) xs → length xs ≤ b - a
Asc-length a b [] h k = omega arith
Asc-length a b (x ∷ xs) h k = omega (arith, k.0, Asc-length x b xs h.1 (raise x a b xs h.0 k.1))

above-All : (p x : ℕ) (xs : List ℕ) → p < x → All (λ y. x < y) xs → above p xs ≡ length xs
unfolding above
above-All p x [] h k = refl
above-All p x (y ∷ ys) h k = ground (arith, above-All p x ys h k.1)

-- Where an ascending list of `n` numbers lies above `a` and not above `a + n`, it is all of these.
above_dense :
    (a p : ℕ) (xs : List ℕ)
    → Asc xs
    → All (λ y. (a < y) × (y ≤ a + length xs)) xs
    → a ≤ p
    → p ≤ a + length xs
    → above p xs + p ≡ a + length xs
unfolding above
above_dense a p [] h k low high = omega arith
above_dense a p (x ∷ xs) h k low high =
    let rest = raise x a (a + suc (length xs)) xs h.0 k.1 in
    let first : x ≡ suc a = omega (arith, k.0, Asc-length x (a + suc (length xs)) xs h.1 rest) in
    let shift : a + suc (length xs) ≡ suc a + length xs = omega arith in
    let inner = rw (first, shift) at rest in
    elim (dec_lt a p) [
      | yes over ↦ ground (arith, first, above_dense (suc a) p xs h.1 inner)
      | no at ↦ ground (arith, first, above-All p x xs, h.0)
    ]

All-of_elem : (P : ℕ → Type 0) (xs : List ℕ) → ((p : ℕ) → elem p xs ≡ true → P p) → All P xs
unfolding elem
All-of_elem P [] h = tt
All-of_elem P (x ∷ xs) h =
    (h x (ground (arith, ==_iff x x)), All-of_elem P xs (λ p held. h p (ground arith)))

module _ (app : App) (parent : Parent) where
  -- `analysis.signals[&core].map[&p]`
  unfoldable pub signal : ℕ → ℕ → Option ℕ
  signal core p = bind (get core (app_analysis parent app).signals) (λ signals. get p signals.map)

  -- The levels of all cores.
  abbrev pub total : ℕ
  total = sum app parent app.cores 0

  -- Where a core's signals start: after those of the cores before it.
  abbrev pub start : ℕ → ℕ
  start core = sum app parent core 0

  start-core_signals : (core : ℕ) → (core_signals app parent core (start core)).start ≡ start core
  unfolding core_signals
  start-core_signals core = refl

  module _ (few : total ≤ 255) where
    -- The entry of a core.
    pub get-signals :
        (core : ℕ)
        → core < app.cores
        → get core (app_analysis parent app).signals
          ≡ some (core_signals app parent core (start core))
    unfolding app_analysis
    get-signals core h = get-assign app parent app.cores core h few

    -- With at most 255 levels in all, the signal of a level of a core that exists is the core's
    -- first signal plus the number of levels above it on the core; a priority that is no level of
    -- the core has no signal.
    pub signal_lem :
        (core p : ℕ)
        → core < app.cores
        → signal core p ≡ (
            if elem p (priorities app parent core)
            then some (start core + above p (priorities app parent core))
            else none)
    unfolding signal app_analysis bind
    signal_lem core p h =
        rw (get-assign app parent app.cores core h few, signal)
          (get-core_signals app parent core (start core) p
            (omega (arith, sum-le_start app parent app.cores core h)))

    -- A level that has a signal is one of its core's, and the signal lies in the core's own range.
    pub signal-inv :
        (core p s : ℕ)
        → core < app.cores
        → signal core p ≡ some s
        → (elem p (priorities app parent core) ≡ true)
          × (s ≡ start core + above p (priorities app parent core))
    signal-inv core p s h e = ground (arith, signal_lem core p h)

    -- With at most 255 levels in all, the signal of a level of a core that exists lies from the
    -- core's first signal up to, but not including, that plus the number of the core's levels,
    -- and is below the number of all levels.
    pub signal-range :
        (core p s : ℕ)
        → core < app.cores
        → signal core p ≡ some s
        → (start core ≤ s) × (s < start core + count app parent core) × (s < total)
    signal-range core p s h e =
        let (held, at) = signal-inv core p s h e in
        let below = (above-lt-length p (priorities app parent core)).1 held in
        let room = sum-le_start app parent app.cores core h in
        (omega arith, omega arith, omega arith)

    -- With at most 255 levels in all, the higher of two levels of a core that exists has the
    -- lower signal.
    pub signal-antitone :
        (core p q s t : ℕ)
        → core < app.cores
        → p < q
        → signal core p ≡ some s
        → signal core q ≡ some t
        → t < s
    signal-antitone core p q s t h lt e f =
        let (held, at) = signal-inv core q t h f in
        let (_, at') = signal-inv core p s h e in
        omega (arith, (above_lt p q (priorities app parent core) lt).1 held)

    signal-lt_of_core :
        (c d p q s t : ℕ)
        → c < d
        → d < app.cores
        → signal c p ≡ some s
        → signal d q ≡ some t
        → s < t
    signal-lt_of_core c d p q s t lt h e f = omega (
      arith,
      signal-range c p s (omega arith) e,
      signal-range d q t h f,
      sum-le_start app parent d c lt,
    )

    -- With at most 255 levels in all, two levels of cores that exist have the same signal only if
    -- they are the same level of the same core.
    pub signal-injective :
        (c d p q s : ℕ)
        → c < app.cores
        → d < app.cores
        → signal c p ≡ some s
        → signal d q ≡ some s
        → (c ≡ d) × (p ≡ q)
    signal-injective c d p q s hc hd e f = elim (dec_lt c d) [
      | yes lt ↦ absurd (omega (arith, signal-lt_of_core c d p q s s lt hd e f))
      | no not_lt ↦ elim (dec_lt d c) [
        | yes gt ↦ absurd (omega (arith, signal-lt_of_core d c q p s s gt hc f e))
        | no not_gt ↦
            let same : d ≡ c = omega arith in
            let f' : signal c q ≡ some s = subst (λ x. signal x q ≡ some s) same f in
            elim (dec_lt p q) [
              | yes lt ↦ absurd (omega (arith, signal-antitone c p q s s hc lt e f'))
              | no not_lt_p ↦ elim (dec_lt q p) [
                | yes gt ↦ absurd (omega (arith, signal-antitone c q p s s hc gt f' e))
                | no not_gt_p ↦ (omega arith, omega arith)
              ]
            ]
      ]
    ]

    -- With at most 255 levels in all, the range of a core that exists goes from the number of
    -- levels of the cores before it up to that plus the number of its own levels.
    pub range-core_signals :
        (core : ℕ)
        → core < app.cores
        → range (core_signals app parent core (start core))
          ≡ record { start = start core; end = start core + count app parent core }
    unfolding range
    range-core_signals core h =
        let room = sum-le_start app parent app.cores core h in
        rw (length-core_signals app parent core (start core), start-core_signals core, range)
          (ground arith)

    -- The same with the range written out.
    dense_lem :
        (core : ℕ)
        → core < app.cores
        → ((p : ℕ) → elem p (priorities app parent core) ≡ true → p ≤ 255)
        → ((p : ℕ)
            → elem p (priorities app parent core) ≡ true
            → signal core p ≡ some (u8_sub (start core + count app parent core) p))
          ↔ ((p : ℕ)
              → elem p (priorities app parent core) ≡ true
              → (1 ≤ p) × (p ≤ count app parent core))
    dense_lem core h small = (only_if, if_)
      where
        ps : List ℕ
        ps = priorities app parent core

        room : start core + length ps ≤ total
        room = sum-le_start app parent app.cores core h

        only_if :
            ((p : ℕ) → elem p ps ≡ true → signal core p ≡ some (u8_sub (start core + length ps) p))
            → (p : ℕ) → elem p ps ≡ true
            → (1 ≤ p) × (p ≤ length ps)
        only_if same p held =
            let (_, at) = signal-inv core p _ h (same p held) in
            let below = (above-lt-length p ps).1 held in
            let fits = small p held in (omega (arith, room), omega (arith, room))

        if_ :
            ((p : ℕ) → elem p ps ≡ true → (1 ≤ p) × (p ≤ length ps))
            → (p : ℕ) → elem p ps ≡ true
            → signal core p ≡ some (u8_sub (start core + length ps) p)
        if_ within p held =
            let dense : above p ps + p ≡ length ps = omega (
              arith,
              above_dense 0 p ps (priorities-Asc app parent core)
                  (All-of_elem (λ y. (0 < y) × (y ≤ 0 + length ps)) ps
                    λ q held_q.
                      let w = within q held_q in
                      (w.0, subst (λ n. q ≤ n) (sym (zero-add (length ps))) w.1))
                  (omega arith) (omega (arith, within p held)),
            ) in
            let at : start core + above p ps ≡ u8_sub (start core + length ps) p =
              omega (arith, room) in
            signal_lem core p h ∙ rw (held, at)

    -- With at most 255 levels in all, and priorities that fit a byte, the signal that `register`
    -- of src/export.rs computes from the core's range and the priority is that of the level, for
    -- all levels of a core that exists, exactly if the core's levels all lie from 1 to their
    -- number, so that there is no gap.
    pub signal-dense :
        (core : ℕ)
        → core < app.cores
        → ((p : ℕ) → elem p (priorities app parent core) ≡ true → p ≤ 255)
        → ((p : ℕ)
            → elem p (priorities app parent core) ≡ true
            → signal core p
              ≡ some (handler_signal (range (core_signals app parent core (start core))) p))
          ↔ ((p : ℕ)
              → elem p (priorities app parent core) ≡ true
              → (1 ≤ p) × (p ≤ count app parent core))
    signal-dense core h small =
        subst
          (λ r.
            ((p : ℕ)
              → elem p (priorities app parent core) ≡ true
              → signal core p ≡ some (handler_signal r p))
            ↔ ((p : ℕ)
                → elem p (priorities app parent core) ≡ true
                → (1 ≤ p) × (p ≤ count app parent core)))
          (sym (range-core_signals core h)) (dense_lem core h small)
