-- ===== src/Macros/Codegen/Shared.antt =====
-- The functions that the callers of a task share, in macros/src/codegen/spawn.rs and schedule.rs: one
-- is emitted for a task when the first caller asks for it.
use mathlib.Core.List.{Memᴰ, Mem, Perm, Nodup, Nodup-nil, Nodup-cons, append-nil, perm_middle}
use mathlib.Core.Logic.{∥∥₁_elim}
use mathlib.Core.HLevel.{⊥_prop}
use mathlib.Core.Bool.{false≢true}
use mathlib.Core.List.Perm
use mathlib.Core.List.Memᴰ
use linux_rtfm.Base.{
  ◌≡◌, refl, sym, ◌∙◌, subst, false, List, [], ◌∷◌, ◌++◌, map, All, All-append, map-snoc,
}
use linux_rtfm.Base.Run.{Run, done}
use linux_rtfm.Macros.Ident.{Ident}
use linux_rtfm.Macros.Collect.{elem_ident}
use linux_rtfm.Macros.Collect.Names.{elem_ident_mem}
use linux_rtfm.Macros.Syntax.{Context}

-- Functions by their names.
abbrev pub declared {ℓ} : {B : Type ℓ} → List (Ident × B) → List Ident
declared fns = map (λ f. f.0) fns

-- No two functions have the same name, and every call is of one of them.
abbrev pub DeclaredOnce {ℓ} : {B : Type ℓ} → List (Ident × B) → (calls : List Ident) → Type 0
DeclaredOnce fns calls = Nodup (declared fns) × All (λ c. Mem c (declared fns)) calls

All-map {ℓ} :
    {A : Type ℓ} (P Q : A → Type 0) (xs : List A) → ((x : A) → P x → Q x) → All P xs → All Q xs
All-map P Q [] f h = tt
All-map P Q (x ∷ xs) f h = (f x h.0, All-map P Q xs f h.1)

-- `ident` gives a task's function its name and `body_of` its body for a caller; `P` holds of the
-- callers and their tasks.
module _ {B : Type 0} (ident : Ident → Ident) (body_of : Context → Ident → Run B)
    (P : Context → Ident → Type 0) where
  -- The function of a task, made for one of its callers.
  abbrev pub Served : Ident → List (Ident × B) → Type 0
  Served name fns =
      (c : Context) × (b : B) × P c name × (body_of c name ≡ done b) × Memᴰ (ident name, b) fns

  -- What holds between the tasks that are done, the functions and the calls.
  pub record Shared (seen : List Ident) (fns : List (Ident × B)) (calls : List Ident) : Type 0 where
    pub distinct : Nodup (map ident seen)
    pub named : Perm (declared fns) (map ident seen)
    pub known : All (λ c. Memᴰ c (map ident seen)) calls
    pub served : (name : Ident) → Memᴰ name seen → Served name fns

  pub Shared-empty : Shared [] [] []
  Shared-empty = record {
    distinct = Nodup-nil;
    named = Perm.refl [];
    known = tt;
    served = λ name m. elim m [ ];
  }

  pub Shared-cast :
      {seen : List Ident} {fns fns' : List (Ident × B)} {calls calls' : List Ident}
      → fns ≡ fns'
      → calls ≡ calls'
      → Shared seen fns calls
      → Shared seen fns' calls'
  Shared-cast {seen} {fns} {fns'} {calls} e f s =
      subst (λ c. Shared seen fns' c) f (subst (λ l. Shared seen l calls) e s)

  pub Shared-call :
      (name : Ident) {seen : List Ident} {fns : List (Ident × B)} {calls : List Ident}
      → Memᴰ name seen
      → Shared seen fns calls
      → Shared seen fns (calls ++ ident name ∷ [])
  Shared-call name {seen} {fns} {calls} m s = record {
    distinct = s.distinct;
    named = s.named;
    known = All-append _ calls (ident name ∷ []) s.known (Memᴰ.map ident m, tt);
    served = s.served;
  }

  pub DeclaredOnce-Shared :
      {seen : List Ident} {fns : List (Ident × B)} {calls : List Ident}
      → Shared seen fns calls
      → DeclaredOnce fns calls
  DeclaredOnce-Shared {seen} {fns} {calls} s = (
    Perm.nodup (Perm.symm s.named) s.distinct,
    All-map _ _ calls (λ c m. (Perm.mem_iff s.named).1 ∣ m ∣₁) s.known,
  )

  module _ (injective : (x y : Ident) → ident x ≡ ident y → x ≡ y) where
    mem-map_ident : (x : Ident) (xs : List Ident) → Memᴰ (ident x) (map ident xs) → Memᴰ x xs
    mem-map_ident x [] m = elim m [ ]
    mem-map_ident x (y ∷ ys) (Memᴰ.head e) = Memᴰ.head (injective x y e)
    mem-map_ident x (y ∷ ys) (Memᴰ.tail m) = Memᴰ.tail (mem-map_ident x ys m)

    pub Shared-add :
        (c : Context) (name : Ident) (b : B) {seen : List Ident} {fns : List (Ident × B)}
        {calls : List Ident}
        → elem_ident name seen ≡ false
        → P c name
        → body_of c name ≡ done b
        → Shared seen fns calls
        → Shared (name ∷ seen) (fns ++ (ident name, b) ∷ []) calls
    Shared-add c name b {seen} {fns} {calls} new p hb s = record {
      distinct =
          Nodup-cons.1
            (λ m. ∥∥₁_elim m ⊥_prop (λ d. absent (mem-map_ident name seen d)), s.distinct);
      named =
          subst (λ l. Perm l (map ident (name ∷ seen)))
            (sym (map-snoc (λ (f : Ident × B). f.0) fns (ident name, b)))
            (Perm.trans (perm_middle (declared fns) []) (
              Perm.cons (ident name)
                (subst (λ l. Perm l (map ident seen)) (sym (append-nil (declared fns))) s.named)));
      known = All-map _ _ calls (λ x m. Memᴰ.tail m) s.known;
      served = λ x m. elim m [
        | Memᴰ.head e ↦
            subst (λ n. Served n (fns ++ (ident name, b) ∷ [])) (sym e)
              (c, b, p, hb, Memᴰ.append_right fns (Memᴰ.head refl))
        | Memᴰ.tail m ↦
            let (c', b', p', hb', inside) = s.served x m in
            (c', b', p', hb', Memᴰ.append_left _ inside)
      ];
    }
      where
        absent : Memᴰ name seen → ⊥
        absent m = absurd (false≢true (sym new ∙ elem_ident_mem name seen m))
