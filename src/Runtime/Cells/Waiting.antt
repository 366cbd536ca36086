-- ===== src/Runtime/Cells/Waiting.antt =====
-- The waiting loops of `Barrier::wait` and `Pid::wait` (src/export.rs) end, and when they do.
use linux_rtfm.Base.{
  ℕ, zero, suc, ◌+◌, ◌≤◌, ◌<◌, ◌≡◌, ◌≢◌, ◌⊎◌, refl, sym, ap, ◌∙◌, subst, true, false, some,
  Bool-cases, ltb, ltb→lt, ◌==◌, arith, inl, inr,
}
use linux_rtfm.Runtime.Cells.{Barrier, wait_barrier, release, Pid, wait_pid, init_pid, uninit_pid}

-- The load `r` is the first from `n` on that reads a released barrier.
abbrev pub FirstReleased : (load : ℕ → Barrier) (n r : ℕ) → Type 0
FirstReleased load n r =
    (n ≤ r) × ((load r).inner ≡ true) × ((i : ℕ) → n ≤ i → i < r → (load i).inner ≡ false)

wait_barrier-now :
    (load : ℕ → Barrier) (fuel n : ℕ)
    → (load n).inner ≡ true
    → wait_barrier load (suc fuel) n ≡ some n
unfolding wait_barrier
wait_barrier-now load fuel n h = rw (h) refl

wait_barrier-spin :
    (load : ℕ → Barrier) (fuel n : ℕ)
    → (load n).inner ≡ false
    → wait_barrier load (suc fuel) n ≡ wait_barrier load fuel (suc n)
unfolding wait_barrier
wait_barrier-spin load fuel n h = rw (h) refl

ltb-false→eq : (a b : ℕ) → a ≤ b → ltb a b ≡ false → a ≡ b
ltb-false→eq a b h e = ground arith

nonzero : (a : ℕ) → a ≢ 0 → (a == 0) ≡ false
nonzero a h = ground arith

first-spin :
    (load : ℕ → Barrier) (n r : ℕ)
    → (load n).inner ≡ false
    → FirstReleased load (suc n) r
    → FirstReleased load n r
first-spin load n r h (hr, e, before) = (
  omega arith,
  e,
  λ i hi hj. elim (Bool-cases (ltb n i)) [
    | inl above ↦ before i (ltb→lt n i above) hj
    | inr below ↦ subst (λ i. (load i).inner ≡ false) (ltb-false→eq n i hi below) h
  ],
)

-- If the load `m` reads a released barrier, a wait that starts at the load `n`, no later than
-- `m`, and has fuel for the loads up to `m` ends, no later than `m`, at the first load from `n`
-- on that reads a released barrier.
pub wait_barrier-ends :
    (load : ℕ → Barrier) (b : Barrier) (m fuel n : ℕ)
    → load m ≡ release b
    → n ≤ m
    → m < n + fuel
    → (r : ℕ) × (wait_barrier load fuel n ≡ some r) × FirstReleased load n r × (r ≤ m)
unfolding release
wait_barrier-ends load b m zero n hm hn hf = absurd (omega arith)
wait_barrier-ends load b m (suc fuel) n hm hn hf = elim (Bool-cases (load n).inner) [
  | inl e ↦
      (n, wait_barrier-now load fuel n e, (omega arith, e, λ i hi hj. absurd (omega arith)), hn)
  | inr e ↦
      let ne : n ≢ m = λ same.
        (let c : false ≡ true = sym e ∙ ap (λ i. (load i).inner) same ∙ ap (λ c. c.inner) hm in
          cc) in
      let (r, hr, first, below) =
        wait_barrier-ends load b m fuel (suc n) hm (omega arith) (omega arith) in
      (r, wait_barrier-spin load fuel n e ∙ hr, first-spin load n r e first, below)
]

-- If each load reads a cell that is as at first or initialized with a nonzero id, and the load
-- `m` reads the latter, a wait that starts at the load `n`, no later than `m`, and has fuel for
-- the loads up to `m` returns that id.
pub wait_pid-ends :
    (load : ℕ → Pid) (p : Pid) (pid m fuel n : ℕ)
    → pid ≢ 0
    → ((i : ℕ) → (load i ≡ uninit_pid) ⊎ (load i ≡ init_pid p pid))
    → load m ≡ init_pid p pid
    → n ≤ m
    → m < n + fuel
    → wait_pid load fuel n ≡ some pid
unfolding wait_pid uninit_pid init_pid
wait_pid-ends load p pid m zero n hp hl hm hn hf = absurd (omega arith)
wait_pid-ends load p pid m (suc fuel) n hp hl hm hn hf = elim (hl n) [
  | inl e ↦
      let ne : n ≢ m = λ same. hp (sym (ap (λ c. c.inner) (sym e ∙ ap load same ∙ hm))) in
      rw (e) (wait_pid-ends load p pid m fuel (suc n) hp hl hm (omega arith) (omega arith))
  | inr e ↦ rw (e, nonzero pid hp) refl
]
