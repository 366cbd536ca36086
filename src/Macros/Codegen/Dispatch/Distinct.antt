-- ===== src/Macros/Codegen/Dispatch/Distinct.antt =====
-- The handlers that macros/src/codegen/pre_init.rs registers have distinct names, and so distinct
-- signals.
use linux_rtfm.Macros.Ident.Decimal.{rt_ident_inj}
use mathlib.Core.List.{Memᴰ, Nodup, Nodup-nil, Nodup-cons, Nodup-append}
use mathlib.Core.List.Memᴰ
use mathlib.Core.Logic.{∥∥₁_elim}
use mathlib.Core.HLevel.{⊥_prop}
use linux_rtfm.Base.{
  ℕ, ◌<◌, ◌≡◌, refl, sym, ap, ◌∙◌, subst, List, [], ◌∷◌, ◌++◌, map, collect, some,
}
use linux_rtfm.Base.{
  All, ap₂, ◌≤◌, Option, none, Bool-cases, inl, inr, if_true, if_false, collect-append,
}
use linux_rtfm.Base.Run.{done, >>=-eq-done, done-inj, unwrap, unwrap-eq-done, map_run, flat_map_run}
use mathlib.Core.Bool.{false≢true}
use mathlib.Core.List.{append-nil, map-append}
use linux_rtfm.Base.Members.{mem-map_inv, All-mem, All-of, Nodup-map}
use linux_rtfm.Macros.Collect.Sorted.{elem_mem}
use linux_rtfm.Macros.Collect.{Map, get, elem}
use linux_rtfm.Macros.Syntax.{App, Parent, TimerQueue}
use linux_rtfm.Macros.Analyze.{Analysis, Signals, app_analysis}
use linux_rtfm.Macros.Analyze.Assignment.{signal, total, signal-injective}
use linux_rtfm.Macros.Codegen.Code.{Stmt, Output}
use linux_rtfm.Macros.Codegen.Boot.{keys, register_level, register_core, pre_init}
use linux_rtfm.Macros.Codegen.Boot.Marks.{pre_init-marks}
use linux_rtfm.Macros.Codegen.Dispatch.Registered.{registered, registered-Quiet, own_stmts}
use linux_rtfm.Macros.Ident.{Ident, rt_ident}

core-of_level :
    (core : ℕ) (ls : List ℕ) (c l : ℕ)
    → Memᴰ {A = ℕ × ℕ} (c, l) (map (λ l. (core, l)) ls)
    → c ≡ core
core-of_level core ls c l m =
    let (x, inside, same) = mem-map_inv (λ l. (core, l)) ls m in ap (λ (t : ℕ × ℕ). t.0) same

cores-of :
    (core : ℕ) (ls : List ℕ) (ts : List (ℕ × ℕ)) (ks : List ℕ)
    → ((c l : ℕ) → Memᴰ {A = ℕ × ℕ} (c, l) ts → Memᴰ c ks)
    → (c l : ℕ) → Memᴰ {A = ℕ × ℕ} (c, l) (map (λ l. (core, l)) ls ++ ts)
    → Memᴰ c (core ∷ ks)
cores-of core ls ts ks h c l m = elim (Memᴰ.append_cases (map (λ l. (core, l)) ls) m) [
  | inl w ↦ Memᴰ.head (core-of_level core ls c l w)
  | inr w ↦ Memᴰ.tail (h c l w)
]

module _ (app : App) (parent : Parent) where
  abbrev analysis : Analysis
  analysis = app_analysis parent app

  -- Handlers with their names after the signals of these levels of cores.
  abbrev Named : List (ℕ × ℕ) → List (ℕ × Ident) → Type 0
  Named [] [] = Unit
  Named [] (e ∷ es) = ⊥
  Named (t ∷ ts) [] = ⊥
  Named ((core, level) ∷ ts) ((priority, name) ∷ es) =
      ((s : ℕ) × (signal app parent core level ≡ some s) × (name ≡ rt_ident s)) × Named ts es

  Named-append :
      (ts us : List (ℕ × ℕ)) (es fs : List (ℕ × Ident))
      → Named ts es
      → Named us fs
      → Named (ts ++ us) (es ++ fs)
  Named-append [] us [] fs h k = k
  Named-append [] us (e ∷ es) fs h k = elim h [ ]
  Named-append (t ∷ ts) us [] fs h k = elim h [ ]
  Named-append ((c, l) ∷ ts) us ((p, n) ∷ es) fs h k = (h.0, Named-append ts us es fs h.1 k)

  pub signal-at :
      (core level rt : ℕ) (signals : Signals)
      → get core analysis.signals ≡ some signals
      → get level signals.map ≡ some rt
      → signal app parent core level ≡ some rt
  unfolding signal mathlib.Core.Option.bind
  signal-at core level rt signals h k = rw (h, signal) k

  -- The registrations of some levels of a core.
  levels-Named :
      (core : ℕ) (signals : Signals) (levels : List ℕ) {stmts : List Stmt}
      → get core analysis.signals ≡ some signals
      → map_run (register_level analysis core signals) levels ≡ done stmts
      → Named (map (λ l. (core, l)) levels) (collect registered stmts)
  unfolding register_level
  levels-Named core signals [] hs h = subst (λ l. Named [] (collect registered l)) (done-inj h) tt
  levels-Named core signals (level ∷ levels) hs h =
      let (stmt, e, h1) = >>=-eq-done (register_level analysis core signals level) _ h in
      let (stmts, e2, h2) =
        >>=-eq-done (map_run (register_level analysis core signals) levels) _ h1 in
      let (rt, e3, h3) = >>=-eq-done (unwrap (get level signals.map)) _ e in
      let found = signal-at core level rt signals hs (unwrap-eq-done (get level signals.map) e3) in
      let rest = levels-Named core signals levels hs e2 in
      subst (λ l. Named ((core, level) ∷ map (λ l. (core, l)) levels) (collect registered l))
        (done-inj h2)
        (subst
          (λ s.
            Named ((core, level) ∷ map (λ l. (core, l)) levels)
              (registered s ++ collect registered stmts))
          (done-inj h3) ((rt, found, refl), rest))

  -- Distinct levels have handlers of distinct names.
  Named-by :
      (ts : List (ℕ × ℕ)) (es : List (ℕ × Ident)) (n : Ident)
      → Named ts es
      → Memᴰ n (map (λ e. e.1) es)
      → (c : ℕ) × (l : ℕ) × (s : ℕ) × Memᴰ (c, l) ts
        × (signal app parent c l ≡ some s)
        × (n ≡ rt_ident s)
  Named-by [] [] n h m = elim m [ ]
  Named-by [] (e ∷ es) n h m = elim h [ ]
  Named-by (t ∷ ts) [] n h m = elim h [ ]
  Named-by ((c, l) ∷ ts) ((p, name) ∷ es) n ((s, found, same), h) m = elim m [
    | Memᴰ.head e ↦ (c, l, s, Memᴰ.head refl, found, e ∙ same)
    | Memᴰ.tail d ↦
        let (c', l', s', inside, found', same') = Named-by ts es n h d in
        (c', l', s', Memᴰ.tail inside, found', same')
  ]

  module _ (few : total app parent ≤ 255) where
    names-distinct :
        (ts : List (ℕ × ℕ)) (es : List (ℕ × Ident))
        → Named ts es
        → All (λ t. t.0 < app.cores) ts
        → Nodup ts
        → Nodup (map (λ e. e.1) es)
    names-distinct [] [] h cores d = Nodup-nil
    names-distinct [] (e ∷ es) h cores d = elim h [ ]
    names-distinct (t ∷ ts) [] h cores d = elim h [ ]
    names-distinct ((c, l) ∷ ts) ((p, n) ∷ es) ((s, found, same), h) cores d =
        let (new, rest) = Nodup-cons.0 d in
        Nodup-cons.1 (
          λ m. ∥∥₁_elim m ⊥_prop λ w.
              let (c', l', s', inside, found', same') = Named-by ts es n h w in
              let one = rt_ident_inj s s' (sym same ∙ same') in
              let (ec, el) =
                signal-injective app parent few c c' l l' s cores.0
                  (All-mem (λ (t : ℕ × ℕ). t.0 < app.cores) ts cores.1 inside) found
                  (found' ∙ ap some (sym one)) in
              new ∣ subst (λ t. Memᴰ t ts) (sym (ap₂ (λ a b. (a, b)) ec el)) inside ∣₁,
          names-distinct ts es h cores.1 rest,
        )

  -- The levels of a receiver, that of its timer included, are distinct.
  own-Named :
      (core : ℕ) (signals : Signals) (timer : Option TimerQueue) (levels : List ℕ)
      {stmts : List Stmt}
      → get core analysis.signals ≡ some signals
      → Nodup levels
      → own_stmts app analysis core signals timer levels ≡ done stmts
      → (own : List ℕ) × Nodup (levels ++ own)
        × Named (map (λ l. (core, l)) own) (collect registered stmts)
  own-Named core signals none levels hs d h = (
    [],
    subst Nodup (sym (append-nil levels)) d,
    subst (λ l. Named [] (collect registered l)) (done-inj h) tt,
  )
  own-Named core signals (some tq) levels hs d h = elim (Bool-cases (elem tq.priority levels)) [
    | inl there ↦ (
      [],
      subst Nodup (sym (append-nil levels)) d,
      subst (λ l. Named [] (collect registered l))
          (done-inj (if_true (elem tq.priority levels) _ _ there h)) tt,
    )
    | inr absent ↦ (
      tq.priority ∷ [],
      Nodup-append.1 (
        d,
        Nodup-cons.1 (λ m. ∥∥₁_elim m ⊥_prop (λ w. elim w [ ]), Nodup-nil),
        λ a ma mb. ∥∥₁_elim ma ⊥_prop λ wa. ∥∥₁_elim mb ⊥_prop λ wb.
            let same = Memᴰ.eq_of_singleton wb in
            false≢true
              (sym absent ∙ elem_mem tq.priority levels (subst (λ x. Memᴰ x levels) same wa)),
      ),
      levels-Named core signals (tq.priority ∷ []) hs
          (if_false (elem tq.priority levels) _ _ absent h),
    )
  ]

  core-Named :
      (core : ℕ) (levels : Map (Map (List Ident))) {stmts : List Stmt}
      → Nodup (keys levels)
      → register_core analysis (core, levels) ≡ done stmts
      → (ls : List ℕ) × Nodup ls × Named (map (λ l. (core, l)) ls) (collect registered stmts)
  unfolding register_core
  core-Named core levels d h =
      let (signals, e1, h1) = >>=-eq-done (unwrap (get core analysis.signals)) _ h in
      let (ls, e2, h2) =
        >>=-eq-done (map_run (register_level analysis core signals) (keys levels)) _ h1 in
      let (own, e3, h3) =
        >>=-eq-done
          (own_stmts app analysis core signals (get core analysis.timer_queues) (keys levels)) _
          h2 in
      let hs = unwrap-eq-done (get core analysis.signals) e1 in
      let (os, distinct, named) =
        own-Named core signals (get core analysis.timer_queues) (keys levels) hs d e3 in
      (
        keys levels ++ os,
        distinct,
        subst (λ l. Named (map (λ l. (core, l)) (keys levels ++ os)) (collect registered l))
            (done-inj h3)
            (subst (λ l. Named (map (λ l. (core, l)) (keys levels ++ os)) l)
              (sym (collect-append registered ls own))
              (subst (λ t. Named t (collect registered ls ++ collect registered own))
                (sym (map-append (λ l. (core, l)) (keys levels) os))
                (Named-append (map (λ l. (core, l)) (keys levels)) (map (λ l. (core, l)) os)
                  (collect registered ls) (collect registered own)
                  (levels-Named core signals (keys levels) hs e2) named))),
      )

  All-Named :
      (channels : Map (Map (Map (List Ident)))) {stmts : List Stmt}
      → Nodup (keys channels)
      → All (λ r. Nodup (keys r.1)) channels
      → flat_map_run (register_core analysis) channels ≡ done stmts
      → (ts : List (ℕ × ℕ)) × Nodup ts
        × Named ts (collect registered stmts)
        × ((c l : ℕ) → Memᴰ (c, l) ts → Memᴰ c (keys channels))
  All-Named [] d ds h = (
    [],
    Nodup-nil,
    subst (λ l. Named [] (collect registered l)) (done-inj h) tt,
    λ c l m. elim m [ ],
  )
  All-Named ((core, levels) ∷ channels) d ds h =
      let (here, e1, h1) = >>=-eq-done (register_core analysis (core, levels)) _ h in
      let (there, e2, h2) = >>=-eq-done (flat_map_run (register_core analysis) channels) _ h1 in
      let (new, rest) = Nodup-cons.0 d in
      let (ls, distinct, named) = core-Named core levels ds.0 e1 in
      let (ts, distinct', named', cores) = All-Named channels rest ds.1 e2 in
      let own = map (λ l. (core, l)) ls in
      (
        own ++ ts,
        Nodup-append.1 (
          Nodup-map (λ l. (core, l)) (λ x y e. ap (λ (t : ℕ × ℕ). t.1) e) ls distinct,
          distinct',
          λ a ma mb. ∥∥₁_elim ma ⊥_prop λ wa. ∥∥₁_elim mb ⊥_prop λ wb.
              let (l, _, same) = mem-map_inv (λ l. (core, l)) ls wa in
              new ∣ cores core l (subst (λ t. Memᴰ t ts) same wb) ∣₁,
        ),
        subst (λ l. Named (own ++ ts) (collect registered l)) (done-inj h2)
            (subst (Named (own ++ ts)) (sym (collect-append registered here there)) (
              Named-append own ts (collect registered here) (collect registered there) named
                named')),
        cores-of core ls ts (keys channels) cores,
      )

  -- With at most 255 levels in all, and channels whose receivers are cores that exist, each
  -- receiver with one entry and each of its levels with one, as in maps: the handlers that the
  -- statements before `init` register, where these are generated, have distinct names.
  pub registered-distinct :
      {out : Output}
      → total app parent ≤ 255
      → ((c : ℕ) → Memᴰ c (keys parent.channels) → c < app.cores)
      → Nodup (keys parent.channels)
      → All (λ r. Nodup (keys r.1)) parent.channels
      → pre_init app (app_analysis parent app) ≡ done out
      → Nodup (map (λ e. e.1) (collect registered out.stmts))
  unfolding app_analysis
  registered-distinct {out} few exist d ds h =
      let (handlers, e, same) = pre_init-marks registered registered-Quiet app analysis h in
      let (ts, distinct, named, cores) = All-Named parent.channels d ds e in
      subst (λ l. Nodup (map (λ e. e.1) l)) (sym same)
        (names-distinct few ts (collect registered handlers) named
          (All-of (λ t. t.0 < app.cores) ts (λ t m. exist t.0 (cores t.0 t.1 m))) distinct)
