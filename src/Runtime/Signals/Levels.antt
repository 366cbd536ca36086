-- ===== src/Runtime/Signals/Levels.antt =====
-- What the masks of src/export.rs mean for priorities: the signals that a thread blocks are those of
-- the levels up to its dynamic priority, under `lock`, `mask` and the entry of a handler.
use linux_rtfm.Base.{
  ℕ, suc, ◌+◌, ◌-◌, ◌≤◌, ◌<◌, ◌≡◌, refl, ap, ◌∙◌, sym, Bool, true, false, ◌&&◌, ◌||◌, not, ltb, leb,
  ◌==◌, some, arith, if◌then◌else◌, subst, lt→ltb, ltb→lt, Bool-cases, inl, inr,
}
use linux_rtfm.Base.Bits.{bit, u8_sub}
use linux_rtfm.Base.Run.{done}
use linux_rtfm.Base.State.{State, Returns, and_then-Returns, expect-Returns, pure, ◌>>◌}
use linux_rtfm.Runtime.Kernel.{
  Kernel, Syscall, call, MaskHow, rt_sigprocmask, sig_block, sig_unblock,
}
use linux_rtfm.Runtime.Signals.{
  Range, mask_word, action_word, handler_signal, mask, lock, Cpu, on_kernel,
}
use linux_rtfm.Runtime.Signals.Words.{Fits, mask-bits, action-bits}

abbrev pub max : ℕ → ℕ → ℕ
max a b = if ltb a b then b else a

-- What `sigprocmask(2)` and `sigaction(2)` promise of the calling thread's mask, for the real-time
-- signals: some of the others cannot be blocked. `enter sig w` is the start of the handler of `sig`,
-- registered with the mask `w`.
pub record Masks (k : Kernel) : Type 0 where
  pub blocked : k.State → ℕ → Bool
  pub enter : (sig w : ℕ) → k.State → k.State
  pub accepts :
      (how : MaskHow) (w : ℕ) (s : k.State)
      → (v : ℕ) × (s' : k.State) × (k.call (rt_sigprocmask how w) s ≡ some (v, s'))
  pub blocks :
      (w v : ℕ) (s s' : k.State)
      → k.call (rt_sigprocmask sig_block w) s ≡ some (v, s')
      → (n : ℕ) → k.sigrtmin ≤ suc n
      → blocked s' (suc n) ≡ (blocked s (suc n) || bit w n)
  pub unblocks :
      (w v : ℕ) (s s' : k.State)
      → k.call (rt_sigprocmask sig_unblock w) s ≡ some (v, s')
      → (n : ℕ) → k.sigrtmin ≤ suc n
      → blocked s' (suc n) ≡ (blocked s (suc n) && not (bit w n))
  pub enters :
      (sig w : ℕ) (s : k.State) (n : ℕ)
      → k.sigrtmin ≤ suc n
      → blocked (enter sig w s) (suc n) ≡ (blocked s (suc n) || bit w n || (suc n == sig))

pub call_unit-Returns :
    (k : Kernel) (c : Syscall) (s : k.State) (P : k.State → Type 0) {v : ℕ} {s' : k.State}
    → k.call c s ≡ some (v, s')
    → P s'
    → Returns (λ t. P t.1) ((call k c >> pure tt) s)
call_unit-Returns k c s P e p =
    and_then-Returns (λ t. P t.1) (λ t. P t.1) (call k c s) (λ _ s'. done (tt, s'))
      (expect-Returns (λ t. P t.1) (k.call c s) e p) (λ _ s' q. q)

-- Bit position of the signal of a priority level, in a core's range.
abbrev pub position : ℕ → Range → ℕ → ℕ
position sigrtmin r p = sigrtmin - 1 + (r.end - p)

module _ (k : Kernel) (m : Masks k) (r : Range) (f : Fits k.sigrtmin r) where
  -- Of the core's signals, a thread at `level` blocks exactly those of the levels up to it.
  abbrev pub Synced : ℕ → k.State → Type 0
  Synced level s =
      (p : ℕ)
      → 1 ≤ p
      → p ≤ r.end - r.start
      → m.blocked s (suc (position k.sigrtmin r p)) ≡ leb p level

  abbrev pub IsAt : {T : Type 0} → ℕ → Cpu k T → Type 0
  IsAt level c = (c.priority.inner ≡ level) × Synced level c.kernel

  module _ (current ceiling : ℕ) (h : current ≤ ceiling) (fit : ceiling ≤ r.end - r.start) where
    level-bits :
        (p : ℕ)
        → 1 ≤ p
        → p ≤ r.end - r.start
        → bit (mask_word k.sigrtmin r current ceiling) (position k.sigrtmin r p)
          ≡ (leb p ceiling && ltb current p)
    level-bits p low high =
        mask-bits k.sigrtmin r f current ceiling (position k.sigrtmin r p) h fit
        ∙ ground (arith, f.ordered)

    -- On a kernel with the mask laws `Masks`, blocking from a level up to a ceiling that the core
    -- has returns, and turns a mask with exactly the signals of the levels 1 to the level
    -- blocked, of the core's, into one with those of the levels 1 to the ceiling.
    pub mask_block-Synced :
        (s : k.State)
        → Synced current s
        → Returns (λ t. Synced ceiling t.1) (mask k r current ceiling true s)
    unfolding mask
    mask_block-Synced s at =
        let w = mask_word k.sigrtmin r current ceiling in
        let (v, s', e) = m.accepts sig_block w s in
        call_unit-Returns k (rt_sigprocmask sig_block w) s (Synced ceiling) e λ p low high.
          m.blocks w v s s' e (position k.sigrtmin r p) (omega (arith, f.first))
          ∙ ground (arith, at p low high, level-bits p low high)

    -- On a kernel with the mask laws `Masks`, unblocking from a ceiling that the core has down to
    -- a level returns, and turns a mask with exactly the signals of the levels 1 to the ceiling
    -- blocked, of the core's, into one with those of the levels 1 to the level.
    pub mask_unblock-Synced :
        (s : k.State)
        → Synced ceiling s
        → Returns (λ t. Synced current t.1) (mask k r current ceiling false s)
    unfolding mask
    mask_unblock-Synced s at =
        let w = mask_word k.sigrtmin r current ceiling in
        let (v, s', e) = m.accepts sig_unblock w s in
        call_unit-Returns k (rt_sigprocmask sig_unblock w) s (Synced current) e λ p low high.
          m.unblocks w v s s' e (position k.sigrtmin r p) (omega (arith, f.first))
          ∙ ground (arith, at p low high, level-bits p low high)

  -- On a kernel with the mask laws `Masks`, if a thread blocks, of its core's signals, exactly
  -- those of the levels 1 to `level`, the handler of a higher level of the core, registered by
  -- the number and the mask that `register` computes, starts with exactly the signals of the
  -- levels 1 to its own blocked.
  pub enter-Synced :
      (level p : ℕ) (s : k.State)
      → 1 ≤ p
      → p ≤ r.end - r.start
      → level < p
      → Synced level s
      → Synced p (m.enter (k.sigrtmin + handler_signal r p) (action_word k.sigrtmin r p) s)
  enter-Synced level p s low high below at q low_q high_q =
      let w = action_word k.sigrtmin r p in
      m.enters (k.sigrtmin + u8_sub r.end p) w s (position k.sigrtmin r q) (omega (arith, f.first))
      ∙ rw (at q low_q high_q, action-bits k.sigrtmin r f p (position k.sigrtmin r q) low high)
          (ground (arith, f.ordered, f.first, f.last, f.bounded))

module _ (k : Kernel) (m : Masks k) (r : Range) (f : Fits k.sigrtmin r) where
  -- What a change of the mask does to a thread.
  abbrev MovesTo : {T : Type 0} → ℕ → Cpu k T → (Unit {0}) × Cpu k T → Type 0
  MovesTo level c t =
      (t.1.priority ≡ c.priority) × Synced k m r f level t.1.kernel × (t.1.resource ≡ c.resource)

  module _ {T : Type 0} (current ceiling : ℕ) (h : current ≤ ceiling)
      (fit : ceiling ≤ r.end - r.start) where
    block-MovesTo :
        (c : Cpu k T)
        → Synced k m r f current c.kernel
        → Returns (MovesTo ceiling c) (on_kernel k (mask k r current ceiling true) c)
    block-MovesTo c at =
        and_then-Returns (λ t. Synced k m r f ceiling t.1) (MovesTo ceiling c)
          (mask k r current ceiling true c.kernel) _
          (mask_block-Synced k m r f current ceiling h fit c.kernel at) (λ _ s q. (refl, q, refl))

    unblock-MovesTo :
        (c : Cpu k T)
        → Synced k m r f ceiling c.kernel
        → Returns (MovesTo current c) (on_kernel k (mask k r current ceiling false) c)
    unblock-MovesTo c at =
        and_then-Returns (λ t. Synced k m r f current t.1) (MovesTo current c)
          (mask k r current ceiling false c.kernel) _
          (mask_unblock-Synced k m r f current ceiling h fit c.kernel at) (λ _ s q. (refl, q, refl))

  module _ {T R : Type 0} (ceiling : ℕ) (fit : ceiling ≤ r.end - r.start) (body : State (Cpu k T) R)
      (Post : R → T → Type 0) where
    -- What holds after code that starts and ends at a level.
    abbrev pub Leaves : ℕ → R × Cpu k T → Type 0
    Leaves level t = IsAt k m r f level t.1 × Post t.0 t.1.resource

    raised_lem :
        (c : Cpu k T)
        → IsAt k m r f c.priority.inner c
        → c.priority.inner < ceiling
        → ((c' : Cpu k T)
            → IsAt k m r f ceiling c'
            → c'.resource ≡ c.resource
            → Returns (Leaves ceiling) (body c'))
        → Returns (Leaves c.priority.inner) (lock k ceiling r body c)
    unfolding lock
    raised_lem c at below runs =
        let p = c.priority.inner in
        let up = record c { priority = record { inner = ceiling } } in
        rw (lt→ltb p ceiling below, lock)
          (and_then-Returns (MovesTo ceiling up) (Leaves p)
            (on_kernel k (mask k r p ceiling true) up) _
            (block-MovesTo p ceiling (omega arith) fit up at.1)
            λ _ c1 in1.
              and_then-Returns (Leaves ceiling) (Leaves p) (body c1) _
                (runs c1 (ap (λ q. q.inner) in1.0, in1.1) in1.2)
                λ res c2 in2.
                  and_then-Returns (MovesTo p c2) (Leaves p)
                    (on_kernel k (mask k r p ceiling false) c2) _
                    (unblock-MovesTo p ceiling (omega arith) fit c2 in2.0.1)
                    λ _ c3 in3. ((refl, in3.1), subst (Post res) (sym in3.2) in2.1))

    -- On a kernel with the mask laws `Masks`, for a thread at a level (its priority cell holds
    -- the level and, of its core's signals, it blocks exactly those of the levels 1 to it), a
    -- ceiling that the core has, and a body that returns from the higher of the level and the
    -- ceiling, with the thread there again and `Post` of its result and the resource: `lock`
    -- returns, the thread is at its old level again, and `Post` holds.
    pub lock-IsAt :
        (c : Cpu k T)
        → IsAt k m r f c.priority.inner c
        → ((c' : Cpu k T)
            → IsAt k m r f (max c.priority.inner ceiling) c'
            → c'.resource ≡ c.resource
            → Returns (Leaves (max c.priority.inner ceiling)) (body c'))
        → Returns (Leaves c.priority.inner) (lock k ceiling r body c)
    unfolding lock
    lock-IsAt c at runs = elim (Bool-cases (ltb c.priority.inner ceiling)) [
      | inl raise ↦ raised_lem c at (ltb→lt _ _ raise) (rw raise at runs)
      | inr stay ↦ rw (stay, lock) ((rw stay at runs) c at refl)
    ]
