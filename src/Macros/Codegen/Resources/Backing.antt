-- ===== src/Macros/Codegen/Resources/Backing.antt =====
-- What stands behind the fields of macros/src/codegen/resources_struct.rs: the owner's test and, for a
-- proxy, the items of resources.rs.
use mathlib.Core.List.{Memᴰ}
use mathlib.Core.List.Memᴰ
use linux_rtfm.Base.{
  ℕ, ◌≤◌, ◌<◌, ◌≡◌, refl, sym, ◌∙◌, subst, Bool, true, false, not, Option, none, some, List, [],
  ◌∷◌, All, arith, ltb, Bool-cases, inl, inr,
}
use linux_rtfm.Base.Run.{done, >>=-eq-done, done-inj, unwrap, unwrap-eq-done}
use linux_rtfm.Macros.Ident.{Ident}
use linux_rtfm.Macros.Collect.{get, find}
use linux_rtfm.Macros.Syntax.{Resource, Ownership, Placed}
use linux_rtfm.Macros.Analyze.{Signals, Analysis, range}
use linux_rtfm.Macros.Codegen.Resources.{
  FieldType, reference, proxy, phantom, Access, task_access, fields_of, marker_fields, is_some,
}
use linux_rtfm.Macros.Codegen.Statics.{
  shared_ceiling, mutex_items, resource_items, ResourceItem, impl_mutex, ResourceItems, join,
}

-- What `Ownership` of rtfm_syntax documents: only what is shared needs a lock, below its ceiling.
pub record IsOwnership (o : Ownership) : Type 0 where
  pub unshared : o.ceiling ≡ none → (p : ℕ) → o.needs_lock p ≡ false
  pub shared : (c : ℕ) → o.ceiling ≡ some c → (p : ℕ) → o.needs_lock p ≡ ltb p c

-- The test of a round behind a field's type.
abbrev pub Behind : (needs_lock is_mut : Bool) → (name : Ident) → FieldType → Type 0
Behind needs_lock is_mut name (reference lt true ty) = needs_lock ≡ false
Behind needs_lock is_mut name (reference lt false ty) = Unit
Behind needs_lock is_mut name (proxy n) = (n ≡ name) × (needs_lock ≡ true) × (is_mut ≡ true)
Behind needs_lock is_mut name phantom = Unit

pub task_access-Behind :
    (name : Ident) (res : Resource) (expr : Option Ident) (needs_lock is_owned runs_once : Bool)
    → ((task_access name res expr needs_lock is_owned runs_once).field.name ≡ name)
      × Behind needs_lock res.is_mut name
          (task_access name res expr needs_lock is_owned runs_once).field.ty
unfolding task_access
task_access-Behind name res expr true is_owned runs_once = elim (Bool-cases res.is_mut) [
  | inl e ↦ rw (e, task_access) (refl, (refl, refl, refl))
  | inr e ↦ rw (e, task_access) (refl, tt)
]
task_access-Behind name res expr false true runs_once = elim (Bool-cases res.is_mut) [
  | inl e ↦ rw (e, task_access) (refl, refl)
  | inr e ↦ rw (e, task_access) (refl, tt)
]
task_access-Behind name res expr false false runs_once = elim (Bool-cases res.is_mut) [
  | inl e ↦ rw (e, task_access) (refl, refl)
  | inr e ↦ rw (e, task_access) (refl, tt)
]

pub ltb-false→le : (a b : ℕ) → ltb a b ≡ false → b ≤ a
ltb-false→le a b h = ground arith

-- What backs a field of a struct for code at a priority: a mutable reference, an owner that either
-- shares the resource with nobody or has its ceiling no higher; a proxy, a ceiling that is higher.
abbrev pub Backed : Analysis → (priority : ℕ) → (name : Ident) → FieldType → Type 0
Backed analysis priority name (reference lt true ty) =
    (o : Ownership) × (find name analysis.ownerships ≡ some o)
    × ((c : ℕ) → o.ceiling ≡ some c → c ≤ priority)
Backed analysis priority name (reference lt false ty) = Unit
Backed analysis priority name (proxy n) =
    (n ≡ name) × (c : ℕ) × (shared_ceiling analysis name ≡ some c) × (priority < c)
Backed analysis priority name phantom = Unit

-- The lock of a proxy among the items of resources.rs: for what is at its place, with the ceiling and
-- the signals of the core that it is on.
abbrev pub Locked : Analysis → ResourceItems → Placed → (name : Ident) (ceiling : ℕ) → Type 0
Locked analysis items p name ceiling =
    (core : ℕ) × (signals : Signals) × (p.core ≡ some core)
    × (get core analysis.signals ≡ some signals)
    × Memᴰ
        (impl_mutex p.res.cfgs (not (is_some p.expr))
          (record { name = name; ceiling = ceiling; range = range signals }))
        items.const_app

-- What backs a proxy among these items: its type, and its lock with the resource's ceiling.
abbrev pub Generated : Analysis → ResourceItems → (name : Ident) → FieldType → Type 0
Generated analysis items name (reference lt is_mut ty) = Unit
Generated analysis items name (proxy n) =
    Memᴰ name items.mod_resources
    × (p : Placed) × Memᴰ p analysis.resources
    × (p.name ≡ name)
    × (c : ℕ) × (shared_ceiling analysis name ≡ some c)
    × Locked analysis items p name c
Generated analysis items name phantom = Unit

pub All-fields_of :
    (P : Ident → FieldType → Type 0) (xs : List Access)
    → All (λ x. P x.field.name x.field.ty) xs
    → All (λ f. P f.name f.ty) (fields_of xs)
All-fields_of P [] h = tt
All-fields_of P (x ∷ xs) h = (h.0, All-fields_of P xs h.1)

pub All-marker :
    (P : Ident → FieldType → Type 0) (m : Bool)
    → ((name : Ident) → P name phantom)
    → All (λ f. P f.name f.ty) (marker_fields m)
All-marker P true h = (h _, tt)
All-marker P false h = tt

pub mem-join-mod :
    (n : Ident) (it : ResourceItems) (its : List ResourceItems)
    → Memᴰ it its
    → Memᴰ n it.mod_resources
    → Memᴰ n (join its).mod_resources
mem-join-mod n it [] h m = elim h [ ]
mem-join-mod n it (x ∷ xs) (Memᴰ.head e) m =
    Memᴰ.append_left _ (subst (λ (i : ResourceItems). Memᴰ n i.mod_resources) e m)
mem-join-mod n it (x ∷ xs) (Memᴰ.tail h) m =
    Memᴰ.append_right x.mod_resources (mem-join-mod n it xs h m)

pub mem-join-const :
    (n : ResourceItem) (it : ResourceItems) (its : List ResourceItems)
    → Memᴰ it its
    → Memᴰ n it.const_app
    → Memᴰ n (join its).const_app
mem-join-const n it [] h m = elim h [ ]
mem-join-const n it (x ∷ xs) (Memᴰ.head e) m =
    Memᴰ.append_left _ (subst (λ (i : ResourceItems). Memᴰ n i.const_app) e m)
mem-join-const n it (x ∷ xs) (Memᴰ.tail h) m =
    Memᴰ.append_right x.const_app (mem-join-const n it xs h m)

resource_items_shared :
    (analysis : Analysis) (p : Placed) (c : ℕ)
    → p.res.is_mut ≡ true
    → shared_ceiling analysis p.name ≡ some c
    → resource_items analysis p ≡ mutex_items analysis p c
unfolding resource_items
resource_items_shared analysis p c hm hc = rw (hc, resource_items) (ground arith)

-- What the round of a mutable, shared resource makes.
pub resource_items-eq-done :
    (analysis : Analysis) (p : Placed) (c : ℕ) (it : ResourceItems)
    → p.res.is_mut ≡ true
    → shared_ceiling analysis p.name ≡ some c
    → resource_items analysis p ≡ done it
    → Memᴰ p.name it.mod_resources × Locked analysis it p p.name c
unfolding mutex_items
resource_items-eq-done analysis p c it hm hc h =
    let h0 = sym (resource_items_shared analysis p c hm hc) ∙ h in
    let (core, e, h1) = >>=-eq-done (unwrap p.core) _ h0 in
    let (signals, e', h2) = >>=-eq-done (unwrap (get core analysis.signals)) _ h1 in
    let same = done-inj h2 in
    (
      subst (λ (i : ResourceItems). Memᴰ p.name i.mod_resources) same (Memᴰ.head refl),
      (
        core,
        signals,
        unwrap-eq-done p.core e,
        unwrap-eq-done (get core analysis.signals) e',
        subst
            (λ (i : ResourceItems).
              Memᴰ
                (impl_mutex p.res.cfgs (not (is_some p.expr))
                  (record { name = p.name; ceiling = c; range = range signals }))
                i.const_app)
            same (Memᴰ.tail (Memᴰ.head refl)),
      ),
    )
