-- ===== src/Macros/Analyze/Ranks.antt =====
-- Which signal each priority level gets from macros/src/analyze.rs.
use linux_rtfm.Base.{
  ℕ, zero, suc, ◌+◌, ◌%◌, ◌^◌, ◌≤◌, ◌<◌, ◌≡◌, refl, ap, ◌∙◌, subst, true, false, Option, none, some,
  List, [], ◌∷◌, ◌++◌, reverse, length, ◌==◌, ==_iff, if◌then◌else◌, arith, All, Bool-cases, inl,
  inr,
}
use linux_rtfm.Base.Bits.{u8_add}
use linux_rtfm.Macros.Collect.{Map, get, insert_map, collect_map, elem}
use linux_rtfm.Macros.Collect.Sorted.{
  Asc, Desc, above, collect_set-Asc, reverse-Desc, above-reverse, elem-reverse, length-reverse,
  elem-All, above_none, get-insert_map, length-insert_map,
}
use linux_rtfm.Macros.Syntax.{App, Parent}
use linux_rtfm.Macros.Analyze.{
  priorities, task_priorities, timer_priorities, zip_from, core_signals, assign,
}

rank-step :
    (x p rt : ℕ) (xs : List ℕ) (rest : Option ℕ)
    → All (λ y. y < x) xs
    → (if elem p xs then some (rt + 1 + above p xs) else if x == p then some rt else rest)
      ≡ (if elem p (x ∷ xs) then some (rt + above p (x ∷ xs)) else rest)
unfolding elem above
rank-step x p rt xs rest d = elim (Bool-cases (elem p xs)) [
  | inl held ↦
      let below : p < x = elem-All (λ y. y < x) p xs held d in rw (held, elem) (ground arith)
  | inr missing ↦ elim (Bool-cases (x == p)) [
    | inl same ↦
        let top : above p xs ≡ 0 =
          above_none p xs (subst (λ z. All (λ y. y < z) xs) ((==_iff x p).0 same) d) in
        rw (missing, same, elem) (ground (arith, (==_iff x p).0 same))
    | inr other ↦ rw (missing, other, elem) (ground arith)
  ]
]

-- The keys that a descending list adds to a map are its members, and each is numbered by how many
-- members are above it.
get-zip_from :
    (ds : List ℕ) (m : Map ℕ) (rt p : ℕ)
    → Desc ds
    → rt + length ds ≤ 256
    → get p (collect_map m (zip_from ds rt))
      ≡ (if elem p ds then some (rt + above p ds) else get p m)
unfolding collect_map zip_from elem above
get-zip_from [] m rt p d h = refl
get-zip_from (x ∷ []) m rt p d h = get-insert_map p x rt m ∙ rank-step x p rt [] (get p m) tt
get-zip_from (x ∷ y ∷ ds) m rt p d h =
    let next : u8_add rt 1 ≡ rt + 1 = omega arith in
    ap (λ s. get p (collect_map (insert_map x rt m) (zip_from (y ∷ ds) s))) next
    ∙ get-zip_from (y ∷ ds) (insert_map x rt m) (rt + 1) p d.1 (omega arith)
    ∙ ap (λ g. if elem p (y ∷ ds) then some (rt + 1 + above p (y ∷ ds)) else g)
        (get-insert_map p x rt m)
    ∙ rank-step x p rt (y ∷ ds) (get p m) d.0

length-zip_from :
    (ds : List ℕ) (m : Map ℕ) (rt : ℕ)
    → Desc ds
    → ((p : ℕ) → elem p ds ≡ true → get p m ≡ none)
    → length (collect_map m (zip_from ds rt)) ≡ length m + length ds
unfolding collect_map zip_from elem
length-zip_from [] m rt d h = omega arith
length-zip_from (x ∷ ds) m rt d h =
    let new = h x (ground (arith, ==_iff x x)) in
    let fresh : (p : ℕ) → elem p ds ≡ true → get p (insert_map x rt m) ≡ none = λ p held.
      let below = elem-All (λ y. y < x) p ds held d.0 in
      get-insert_map p x rt m ∙ ground (arith, h p) in
    length-zip_from ds (insert_map x rt m) (u8_add rt 1) d.1 fresh
    ∙ omega (arith, length-insert_map x rt m new)

module _ (app : App) (parent : Parent) where
  -- How many levels a core has.
  abbrev pub count : ℕ → ℕ
  count core = length (priorities app parent core)

  -- How many levels the `n` cores from `core` on have.
  unfoldable pub sum : (n core : ℕ) → ℕ
  sum zero core = 0
  sum (suc n) core = count core + sum n (suc core)

  pub priorities-Asc : (core : ℕ) → Asc (priorities app parent core)
  unfolding priorities
  priorities-Asc core =
      collect_set-Asc
        (task_priorities core app.software_tasks ++ timer_priorities (get core parent.timer_queues))

  pub get-core_signals :
      (core rt p : ℕ)
      → rt + count core ≤ 256
      → get p (core_signals app parent core rt).map ≡ (
          if elem p (priorities app parent core)
          then some (rt + above p (priorities app parent core))
          else none)
  unfolding core_signals get
  get-core_signals core rt p h =
      let ps = priorities app parent core in
      get-zip_from (reverse ps) [] rt p (reverse-Desc ps (priorities-Asc core))
        (rw (length-reverse ps) h)
      ∙ rw (elem-reverse p ps, above-reverse p ps)

  pub length-core_signals :
      (core rt : ℕ) → length (core_signals app parent core rt).map ≡ count core
  unfolding core_signals get
  length-core_signals core rt =
      let ps = priorities app parent core in
      length-zip_from (reverse ps) [] rt (reverse-Desc ps (priorities-Asc core)) (λ _ _. refl)
      ∙ rw (length-reverse ps) (omega arith)

  get-assign_at :
      (left core rt n c : ℕ)
      → c ≡ core + n
      → n < left
      → rt + sum left core ≤ 255
      → get c (assign app parent left core rt) ≡ some (core_signals app parent c (rt + sum n core))
  unfolding assign sum get
  get-assign_at zero core rt n c e h k = elim h [ ]
  get-assign_at (suc left) core rt zero c e h k =
      let here : c ≡ core = omega arith in
      let same : rt + 0 ≡ rt = omega arith in rw (here, same, (==_iff core core).1 refl)
  get-assign_at (suc left) core rt (suc n) c e h k =
      let other : (core == c) ≡ false = ground arith in
      let next : u8_add rt (length (core_signals app parent core rt).map % 2 ^ 8)
          ≡ rt + count core =
        rw (length-core_signals core rt) (omega arith) in
      let start : rt + (count core + sum n (suc core)) ≡ rt + count core + sum n (suc core) =
        omega arith in
      rw (other, next, start)
        (get-assign_at left (suc core) (rt + count core) n c (omega arith) (omega arith)
          (omega arith))

  pub get-assign :
      (left c : ℕ)
      → c < left
      → sum left 0 ≤ 255
      → get c (assign app parent left 0 0) ≡ some (core_signals app parent c (sum c 0))
  get-assign left c h k =
      get-assign_at left 0 0 c c (omega arith) h (omega arith)
      ∙ ap (λ rt. some (core_signals app parent c rt)) (omega arith)

  -- What is counted up to a core, its own levels included, is within the whole.
  pub sum-le : (n left core : ℕ) → n < left → sum n core + count (core + n) ≤ sum left core
  unfolding sum
  sum-le n zero core h = elim h [ ]
  sum-le zero (suc left) core h = let here : core + 0 ≡ core = omega arith in rw here (omega arith)
  sum-le (suc n) (suc left) core h =
      let there : core + suc n ≡ suc core + n = omega arith in
      rw there (omega (arith, sum-le n left (suc core) (omega arith)))

  pub sum-le_start : (left core : ℕ) → core < left → sum core 0 + count core ≤ sum left 0
  sum-le_start left core h =
      let here : 0 + core ≡ core = omega arith in
      subst (λ c. sum core 0 + count c ≤ sum left 0) here (sum-le core left 0 h)
