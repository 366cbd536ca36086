-- ===== src/Macros/Codegen/Resources/Proxies.antt =====
-- Who reaches a resource how: macros/src/codegen/resources_struct.rs gives a task a proxy or a
-- reference, and resources.rs generates the proxies.
use linux_rtfm.Macros.Codegen.Resources.Backing.{
  IsOwnership, Behind, task_access-Behind, ltb-false→le, Backed, Generated, All-fields_of,
  All-marker, mem-join-mod, mem-join-const, resource_items-eq-done,
}
use mathlib.Core.List.{Memᴰ}
use linux_rtfm.Base.{
  ltb→lt, ℕ, ◌<◌, ◌≡◌, refl, sym, ap, ◌∙◌, subst, Bool, true, false, not, Option, none, some, All,
  All-append, Option-cases, inl, inr,
}
use linux_rtfm.Base.Rounds.{All-map_run, mem-of_map_run}
use linux_rtfm.Base.Run.{done, >>=-eq-done, done-inj, unwrap, unwrap-eq-done, map_run}
use linux_rtfm.Macros.Ident.{Ident}
use linux_rtfm.Macros.Collect.{find}
use linux_rtfm.Macros.Syntax.{App, Context, Resource, Ownership, Placed}
use linux_rtfm.Macros.Analyze.{Analysis, range}
use linux_rtfm.Macros.Codegen.Resources.{
  FieldType, reference, proxy, phantom, Struct, Access, access, access_by, fields_of,
  resources_struct, resources_of, resources_ident, is_some,
}
use linux_rtfm.Macros.Codegen.Statics.{
  shared_ceiling, resource_items, impl_mutex, ResourceItems, resources,
}

module _ (analysis : Analysis)
    (lawful : (name : Ident) (o : Ownership)
      → find name analysis.ownerships ≡ some o
      → IsOwnership o) where
  -- A test that says that a lock is needed shows the ceiling.
  locked-ceiling :
      (name : Ident) (o : Ownership) (priority : ℕ)
      → find name analysis.ownerships ≡ some o
      → o.needs_lock priority ≡ true
      → (c : ℕ) × (shared_ceiling analysis name ≡ some c) × (priority < c)
  unfolding shared_ceiling
  locked-ceiling name o priority ho h = elim (Option-cases o.ceiling) [
    | inl e ↦ let f : false ≡ true = sym ((lawful name o ho).unshared e priority) ∙ h in cc
    | inr (c, e) ↦ (
      c,
      rw (ho, shared_ceiling) e,
      ltb→lt priority c (sym ((lawful name o ho).shared c e priority) ∙ h),
    )
  ]

  behind-Backed :
      (name : Ident) (o : Ownership) (priority : ℕ) (is_mut : Bool) (ty : FieldType)
      → find name analysis.ownerships ≡ some o
      → Behind (o.needs_lock priority) is_mut name ty
      → Backed analysis priority name ty
  behind-Backed name o priority is_mut (reference lt true ty) ho h =
      (o, ho, λ c e. ltb-false→le priority c (sym ((lawful name o ho).shared c e priority) ∙ h))
  behind-Backed name o priority is_mut (reference lt false ty) ho h = tt
  behind-Backed name o priority is_mut (proxy n) ho h =
      let (c, hc, below) = locked-ceiling name o priority ho h.1 in (h.0, c, hc, below)
  behind-Backed name o priority is_mut phantom ho h = tt

  access_by-Behind :
      (name : Ident) (r : Resource × Option Ident) (owners : Option Ownership) (priority : ℕ)
      (runs_once : Bool) (x : Access)
      → access_by false name r owners priority runs_once ≡ done x
      → (o : Ownership) × (owners ≡ some o)
        × (x.field.name ≡ name)
        × Behind (o.needs_lock priority) r.0.is_mut name x.field.ty
  unfolding access_by
  access_by-Behind name (res, expr) none priority runs_once x h = cc
  access_by-Behind name (res, expr) (some o) priority runs_once x h =
      let (same, test) =
        task_access-Behind name res expr (o.needs_lock priority) o.is_owned runs_once in
      let e = done-inj h in
      (
        o,
        refl,
        subst (λ x. x.field.name ≡ name) e same,
        subst (λ x. Behind (o.needs_lock priority) res.is_mut name x.field.ty) e test,
      )

  module _ (context : Context) (priority : ℕ) (app : App) (task : app.is_init context ≡ false) where
    -- A round that ends finds the resource and its owner, and its field is behind the owner's test.
    access-Behind :
        (name : Ident) (x : Access)
        → access context priority app analysis name ≡ done x
        → (r : Resource × Option Ident) × (o : Ownership) × (app.resource name ≡ some r)
          × (find name analysis.ownerships ≡ some o)
          × (x.field.name ≡ name)
          × Behind (o.needs_lock priority) r.0.is_mut name x.field.ty
    unfolding access
    access-Behind name x h =
        let (r, hr, h1) = >>=-eq-done (unwrap (app.resource name)) _ h in
        let owners = find name analysis.ownerships in
        let h2 =
          subst (λ b. access_by b name r owners priority (app.runs_once context) ≡ done x) task
            h1 in
        let (o, ho, same, test) =
          access_by-Behind name r owners priority (app.runs_once context) x h2 in
        (r, o, unwrap-eq-done (app.resource name) hr, ho, same, test)

    access-Backed :
        (name : Ident) (x : Access)
        → access context priority app analysis name ≡ done x
        → Backed analysis priority x.field.name x.field.ty
    access-Backed name x h =
        let (r, o, hr, ho, same, test) = access-Behind name x h in
        subst (λ n. Backed analysis priority n x.field.ty) (sym same)
          (behind-Backed name o priority r.0.is_mut x.field.ty ho test)

    -- What holds of each round's field holds of the struct's.
    struct-All :
        (P : Ident → FieldType → Type 0) (s : Struct)
        → ((name : Ident) → P name phantom)
        → ((name : Ident) (x : Access)
            → access context priority app analysis name ≡ done x
            → P x.field.name x.field.ty)
        → resources_struct context priority app analysis ≡ done s
        → All (λ f. P f.name f.ty) s.fields
    unfolding resources_struct
    struct-All P s at_marker each h =
        let (names, hn, h1) = >>=-eq-done (resources_of context app) _ h in
        let (xs, hx, h2) =
          >>=-eq-done (map_run (access context priority app analysis) names) _ h1 in
        let (ident, hi, h3) = >>=-eq-done (resources_ident context app) _ h2 in
        let all =
          All-map_run (access context priority app analysis) (λ x. P x.field.name x.field.ty) names
            hx each in
        subst (λ s. All (λ f. P f.name f.ty) s.fields) (done-inj h3)
          (All-append (λ f. P f.name f.ty) (fields_of xs) _ (All-fields_of P xs all)
            (All-marker P _ at_marker))

    -- If the ownerships keep to `IsOwnership`, in the struct of the resources of a context other
    -- than `init`, where it is generated for a priority: a mutable reference is to a resource
    -- with an owner whose ceiling, if it is shared, is at most the priority; a proxy is of the
    -- type of its own resource, which is shared with a ceiling above the priority.
    pub resources_struct-Backed :
        (s : Struct)
        → resources_struct context priority app analysis ≡ done s
        → All (λ f. Backed analysis priority f.name f.ty) s.fields
    resources_struct-Backed s = struct-All (Backed analysis priority) s (λ name. tt) access-Backed

    module _
        (listed : (name : Ident) (r : Resource × Option Ident)
          → app.resource name ≡ some r
          → (p : Placed) × Memᴰ p analysis.resources × (p.name ≡ name) × (p.res ≡ r.0))
        (items : ResourceItems) (made : resources analysis ≡ done items) where
      behind-Generated :
          (name : Ident) (r : Resource × Option Ident) (o : Ownership) (ty : FieldType)
          → app.resource name ≡ some r
          → find name analysis.ownerships ≡ some o
          → Behind (o.needs_lock priority) r.0.is_mut name ty
          → Generated analysis items name ty
      unfolding resources
      behind-Generated name r o (reference lt is_mut ty) hr ho test = tt
      behind-Generated name r o (proxy n) hr ho test =
          let (c, hc, below) = locked-ceiling name o priority ho test.1 in
          let (p, hp, named, res) = listed name r hr in
          let (its, hits, h1) =
            >>=-eq-done (map_run (resource_items analysis) analysis.resources) _ made in
          let (it, hit, mit) =
            mem-of_map_run (resource_items analysis) analysis.resources hits hp in
          let (m, (core, signals, at, known, x)) =
            resource_items-eq-done analysis p c it (ap (λ (r : Resource). r.is_mut) res ∙ test.2)
              (ap (shared_ceiling analysis) named ∙ hc) hit in
          let all = done-inj h1 in
          let lock_of = λ (n : Ident).
            impl_mutex p.res.cfgs (not (is_some p.expr))
              (record { name = n; ceiling = c; range = range signals }) in
          (
            subst (λ (i : ResourceItems). Memᴰ name i.mod_resources) all
                (mem-join-mod name it its mit (subst (λ n. Memᴰ n it.mod_resources) named m)),
            p,
            hp,
            named,
            c,
            hc,
            (
              core,
              signals,
              at,
              known,
              subst (λ (i : ResourceItems). Memᴰ (lock_of name) i.const_app) all
                  (mem-join-const _ it its mit
                    (subst (λ n. Memᴰ (lock_of n) it.const_app) named x)),
            ),
          )
      behind-Generated name r o phantom hr ho test = tt

      access-Generated :
          (name : Ident) (x : Access)
          → access context priority app analysis name ≡ done x
          → Generated analysis items x.field.name x.field.ty
      access-Generated name x h =
          let (r, o, hr, ho, same, test) = access-Behind name x h in
          subst (λ n. Generated analysis items n x.field.ty) (sym same)
            (behind-Generated name r o x.field.ty hr ho test)

      -- If the ownerships keep to `IsOwnership`, each resource that the application knows is
      -- among those that resources.rs goes through, and the items of resources.rs are generated:
      -- every proxy in the struct of the resources of a context other than `init`, where it is
      -- generated, has its type among these items, and a lock on what stands under its name, with
      -- the ceiling of the resource and the range of the signals of the core that the resource is
      -- on.
      pub resources_struct-Generated :
          (s : Struct)
          → resources_struct context priority app analysis ≡ done s
          → All (λ f. Generated analysis items f.name f.ty) s.fields
      resources_struct-Generated s =
          struct-All (Generated analysis items) s (λ name. tt) access-Generated
