-- ===== src/Macros/Codegen/Startup/Invariant.antt =====
-- What holds in every state that the start-up reaches.
use mathlib.Core.List.{Memᴰ, append_assoc, map-append}
use mathlib.Core.List.Memᴰ
use linux_rtfm.Base.{
  ℕ, ◌≡◌, sym, ap, ◌∙◌, subst, true, List, [], ◌∷◌, ◌++◌, map, collect, inl, inr, ◌⊎◌,
}
use linux_rtfm.Base.Members.{mem-collect, mem-collect_inv}
use linux_rtfm.Macros.Ident.{Ident}
use linux_rtfm.Macros.Collect.{elem_ident}
use linux_rtfm.Macros.Collect.Names.{Memᴰ-elem_ident, elem_ident_mem}
use linux_rtfm.Macros.Codegen.Code.{Stmt, wait_barrier, wait_tid}
use linux_rtfm.Macros.Codegen.Boot.Barriers.{released}
use linux_rtfm.Macros.Codegen.Startup.{
  Thread, State, Step, main_step, child_step, Reach, start, next, history, passed_by, returns,
  advance, program, programs, written,
}

-- What a mark finds stays found in a longer history.
elem_ident_mono :
    (mark : Stmt → List Ident) (name : Ident) {xs ys : List Stmt}
    → ((x : Stmt) → Memᴰ x xs → Memᴰ x ys)
    → elem_ident name (collect mark xs) ≡ true
    → elem_ident name (collect mark ys) ≡ true
elem_ident_mono mark name {xs} {ys} sub h =
    let (x, inside, of) = mem-collect_inv mark xs (Memᴰ-elem_ident name (collect mark xs) h) in
    elem_ident_mem name (collect mark ys) (mem-collect mark (sub x inside) of)

returns_mono :
    {xs ys : List Stmt} (stmt : Stmt)
    → ((x : Stmt) → Memᴰ x xs → Memᴰ x ys)
    → returns xs stmt ≡ true
    → returns ys stmt ≡ true
returns_mono (wait_barrier b) sub h = elem_ident_mono released b sub h
returns_mono (wait_tid tid) sub h = elem_ident_mono written tid sub h
returns_mono stmt sub h = h

-- A member of what is collected where one member is replaced.
collect_replaced {ℓ κ} :
    {A : Type ℓ} {B : Type κ} {R : Type 0} (f : A → List B) {x : B} (before after : List A)
    (c d : A)
    → (Memᴰ x (f d) → Memᴰ x (f c) ⊎ R)
    → Memᴰ x (collect f (before ++ d ∷ after))
    → Memᴰ x (collect f (before ++ c ∷ after)) ⊎ R
collect_replaced f [] after c d h m = elim (Memᴰ.append_cases (f d) m) [
  | inl here ↦ elim (h here) [ inl w ↦ inl (Memᴰ.append_left (collect f after) w) | inr r ↦ inr r ]
  | inr there ↦ inl (Memᴰ.append_right (f c) there)
]
collect_replaced f (b ∷ before) after c d h m = elim (Memᴰ.append_cases (f b) m) [
  | inl here ↦ inl (Memᴰ.append_left (collect f (before ++ c ∷ after)) here)
  | inr there ↦ elim (collect_replaced f before after c d h there) [
    | inl w ↦ inl (Memᴰ.append_right (f b) w)
    | inr r ↦ inr r
  ]
]

snoc_cases {ℓ} : {A : Type ℓ} (xs : List A) (y x : A) → Memᴰ x (xs ++ y ∷ []) → Memᴰ x xs ⊎ (x ≡ y)
snoc_cases xs y x m = elim (Memᴰ.append_cases xs m) [
  | inl here ↦ inl here
  | inr last ↦ inr (Memᴰ.eq_of_singleton last)
]

advance-program :
    (t : Thread) (stmt : Stmt) (rest : List Stmt)
    → t.rest ≡ stmt ∷ rest
    → program (advance t stmt rest) ≡ program t
advance-program t stmt rest e =
    append_assoc t.passed (stmt ∷ []) rest ∙ ap (λ l. t.passed ++ l) (sym e)

-- One more statement in the history of one child.
module _ (main : List Stmt) (before after : List (Ident × Thread)) (name : Ident) (t : Thread)
    (stmt : Stmt) (rest : List Stmt) where
  abbrev old : List (Ident × Thread)
  old = before ++ (name, t) ∷ after

  abbrev new : List (Ident × Thread)
  new = before ++ (name, advance t stmt rest) ∷ after

  child-grows :
      (x : Stmt) → Memᴰ x (main ++ collect passed_by old) → Memᴰ x (main ++ collect passed_by new)
  child-grows x m = elim (Memᴰ.append_cases main m) [
    | inl here ↦ Memᴰ.append_left (collect passed_by new) here
    | inr there ↦
        elim (collect_replaced {R = ⊥} passed_by before after (name, advance t stmt rest) (name, t)
          (λ w. inl (Memᴰ.append_left (stmt ∷ []) w)) there) [
            | inl w ↦ Memᴰ.append_right main w
            | inr r ↦ elim r [ ]
          ]
  ]

  child-new :
      (x : Stmt)
      → Memᴰ x (main ++ collect passed_by new)
      → Memᴰ x (main ++ collect passed_by old) ⊎ (x ≡ stmt)
  child-new x m = elim (Memᴰ.append_cases main m) [
    | inl here ↦ inl (Memᴰ.append_left (collect passed_by old) here)
    | inr there ↦
        elim (collect_replaced passed_by before after (name, t) (name, advance t stmt rest)
          (snoc_cases t.passed stmt x) there) [
            | inl w ↦ inl (Memᴰ.append_right main w)
            | inr same ↦ inr same
          ]
  ]

  child-programs : t.rest ≡ stmt ∷ rest → programs new ≡ programs old
  child-programs e =
      map-append _ before _
      ∙ ap (λ l. map (λ (c : Ident × Thread). (c.0, program c.1)) before ++ l)
          (ap (λ p. (name, p) ∷ programs after) (advance-program t stmt rest e))
      ∙ sym (map-append _ before _)

main-grows :
    (s : State) (stmt : Stmt) (x : Stmt)
    → Memᴰ x (history s)
    → Memᴰ x ((s.main.passed ++ stmt ∷ []) ++ collect passed_by s.childs)
main-grows s stmt x m = elim (Memᴰ.append_cases s.main.passed m) [
  | inl here ↦ Memᴰ.append_left (collect passed_by s.childs) (Memᴰ.append_left (stmt ∷ []) here)
  | inr there ↦ Memᴰ.append_right (s.main.passed ++ stmt ∷ []) there
]

main-new :
    (s : State) (stmt : Stmt) (x : Stmt)
    → Memᴰ x ((s.main.passed ++ stmt ∷ []) ++ collect passed_by s.childs)
    → Memᴰ x (history s) ⊎ (x ≡ stmt)
main-new s stmt x m = elim (Memᴰ.append_cases (s.main.passed ++ stmt ∷ []) m) [
  | inl here ↦ elim (snoc_cases s.main.passed stmt x here) [
    | inl w ↦ inl (Memᴰ.append_left (collect passed_by s.childs) w)
    | inr same ↦ inr same
  ]
  | inr there ↦ inl (Memᴰ.append_right s.main.passed there)
]

-- Each thread is somewhere in its program, and what was run returns.
pub record Inv (main : List Stmt) (childs : List (Ident × List Stmt)) (s : State) : Type 0 where
  pub main_program : program s.main ≡ main
  pub child_programs : programs s.childs ≡ childs
  pub returned : (x : Stmt) → Memᴰ x (history s) → returns (history s) x ≡ true

all-returned :
    {h h' : List Stmt} (stmt : Stmt)
    → ((x : Stmt) → Memᴰ x h → Memᴰ x h')
    → ((x : Stmt) → Memᴰ x h' → Memᴰ x h ⊎ (x ≡ stmt))
    → ((x : Stmt) → Memᴰ x h → returns h x ≡ true)
    → returns h stmt ≡ true
    → (x : Stmt) → Memᴰ x h'
    → returns h' x ≡ true
all-returned {h} {h'} stmt grows new returned now x m = elim (new x m) [
  | inl before ↦ returns_mono x grows (returned x before)
  | inr same ↦ returns_mono x grows (subst (λ y. returns h y ≡ true) (sym same) now)
]

Step-Inv :
    (main : List Stmt) (childs : List (Ident × List Stmt)) {s u : State}
    → Step s u
    → Inv main childs s
    → Inv main childs u
Step-Inv main childs (main_step s stmt rest e now) i = record {
  main_program = advance-program s.main stmt rest e ∙ i.main_program;
  child_programs = i.child_programs;
  returned = all-returned stmt (main-grows s stmt) (main-new s stmt) i.returned now;
}
Step-Inv main childs (child_step s before after name t stmt rest e er runs now) i = record {
  main_program = i.main_program;
  child_programs =
      child-programs s.main.passed before after name t stmt rest er
      ∙ ap programs (sym e)
      ∙ i.child_programs;
  returned =
      all-returned stmt
        (λ x m.
          child-grows s.main.passed before after name t stmt rest x
            (subst (λ l. Memᴰ x (s.main.passed ++ collect passed_by l)) e m))
        (λ x m.
          subst (λ l. Memᴰ x (s.main.passed ++ collect passed_by l) ⊎ (x ≡ stmt)) (sym e)
            (child-new s.main.passed before after name t stmt rest x m))
        i.returned now;
}

pub Reach-Inv :
    (main : List Stmt) (childs : List (Ident × List Stmt)) {s u : State} {n : ℕ}
    → Inv main childs s
    → Reach s n u
    → Inv main childs u
Reach-Inv main childs i start = i
Reach-Inv main childs i (next r step) = Step-Inv main childs step (Reach-Inv main childs i r)
