-- ===== src/Base/Rounds.antt =====
-- Loops whose rounds may panic: what holds of their results.
use mathlib.Core.Path.{◌≡◌, refl, sym, ap, ap₂, ◌∙◌, subst}
use mathlib.Core.List.Memᴰ
use mathlib.Core.List.{List, [], ◌∷◌, ◌++◌, Memᴰ}
use linux_rtfm.Base.Lists.{All, collect, collect-append}
use linux_rtfm.Base.Run.{Run, done, >>=-eq-done, done-inj, map_run, flat_map_run}

module _ {ℓ κ} {A : Type ℓ} {B : Type κ} (f : A → Run B) where
  pub mem-of_map_run :
      {a : A} (xs : List A) {ys : List B}
      → map_run f xs ≡ done ys
      → Memᴰ a xs
      → (b : B) × (f a ≡ done b) × Memᴰ b ys
  mem-of_map_run [] h m = elim m [ ]
  mem-of_map_run {a} (x ∷ xs) h m =
      let (y, hy, h1) = >>=-eq-done (f x) _ h in
      let (zs, hz, h2) = >>=-eq-done (map_run f xs) _ h1 in
      elim m [
        | Memᴰ.head e ↦ (y, ap f e ∙ hy, subst (Memᴰ y) (done-inj h2) (Memᴰ.head refl))
        | Memᴰ.tail m ↦
            let (b, hb, inside) = mem-of_map_run xs hz m in
            (b, hb, subst (Memᴰ b) (done-inj h2) (Memᴰ.tail inside))
      ]

  pub All-map_run {μ} :
      (P : B → Type μ) (xs : List A) {ys : List B}
      → map_run f xs ≡ done ys
      → ((a : A) (b : B) → f a ≡ done b → P b)
      → All P ys
  All-map_run P [] h each = subst (All P) (done-inj h) tt
  All-map_run P (x ∷ xs) h each =
      let (y, hy, h1) = >>=-eq-done (f x) _ h in
      let (zs, hz, h2) = >>=-eq-done (map_run f xs) _ h1 in
      subst (All P) (done-inj h2) (each x y hy, All-map_run P xs hz each)

-- Two loops over the same list whose rounds agree on what is collected.
module _ {ℓ κ μ ν} {A : Type ℓ} {B : Type κ} {C : Type μ} {D : Type ν} where
  pub flat_map_run-agree :
      (f : A → Run (List B)) (g : A → Run (List C)) (p : B → List D) (q : C → List D)
      → ((a : A) (bs : List B) (cs : List C)
          → f a ≡ done bs
          → g a ≡ done cs
          → collect p bs ≡ collect q cs)
      → (xs : List A) {ys : List B} {zs : List C} → flat_map_run f xs ≡ done ys
      → flat_map_run g xs ≡ done zs
      → collect p ys ≡ collect q zs
  flat_map_run-agree f g p q each [] hf hg =
      ap (collect p) (sym (done-inj hf)) ∙ ap (collect q) (done-inj hg)
  flat_map_run-agree f g p q each (x ∷ xs) hf hg =
      let (bs, hb, h1) = >>=-eq-done (f x) _ hf in
      let (ys, hy, h2) = >>=-eq-done (flat_map_run f xs) _ h1 in
      let (cs, hc, k1) = >>=-eq-done (g x) _ hg in
      let (zs, hz, k2) = >>=-eq-done (flat_map_run g xs) _ k1 in
      ap (collect p) (sym (done-inj h2))
      ∙ collect-append p bs ys
      ∙ ap₂ (λ l r. l ++ r) (each x bs cs hb hc) (flat_map_run-agree f g p q each xs hy hz)
      ∙ sym (collect-append q cs zs)
      ∙ ap (collect q) (done-inj k2)

module _ {ℓ κ μ} {A : Type ℓ} {B : Type κ} {C : Type μ} where
  -- Rounds in which nothing is collected.
  pub flat_map_run-none :
      (f : A → Run (List B)) (p : B → List C)
      → ((x : A) (bs : List B) → f x ≡ done bs → collect p bs ≡ [])
      → (xs : List A) {ys : List B} → flat_map_run f xs ≡ done ys
      → collect p ys ≡ []
  flat_map_run-none f p each [] h = ap (collect p) (sym (done-inj h))
  flat_map_run-none f p each (x ∷ xs) h =
      let (bs, hb, h1) = >>=-eq-done (f x) _ h in
      let (ys, hy, h2) = >>=-eq-done (flat_map_run f xs) _ h1 in
      ap (collect p) (sym (done-inj h2))
      ∙ collect-append p bs ys
      ∙ ap₂ (λ l r. l ++ r) (each x bs hb) (flat_map_run-none f p each xs hy)

module _ {ℓ κ} {A : Type ℓ} {B : Type κ} where
  pub mem-map_run :
      (f : A → Run B) {a : A} {b : B} (xs : List A) {ys : List B}
      → map_run f xs ≡ done ys
      → Memᴰ a xs
      → f a ≡ done b
      → Memᴰ b ys
  mem-map_run f [] h m hb = elim m [ ]
  mem-map_run f {a} {b} (x ∷ xs) h m hb =
      let (y, hy, h1) = >>=-eq-done (f x) _ h in
      let (zs, hz, h2) = >>=-eq-done (map_run f xs) _ h1 in
      subst (Memᴰ b) (done-inj h2) (elim m [
        | Memᴰ.head e ↦ Memᴰ.head (done-inj (sym hb ∙ ap f e ∙ hy))
        | Memᴰ.tail m ↦ Memᴰ.tail (mem-map_run f xs hz m hb)
      ])

  pub mem-flat_map_run :
      (f : A → Run (List B)) {a : A} (xs : List A) {ys : List B}
      → flat_map_run f xs ≡ done ys
      → Memᴰ a xs
      → (bs : List B) × (f a ≡ done bs) × ((b : B) → Memᴰ b bs → Memᴰ b ys)
  mem-flat_map_run f [] h m = elim m [ ]
  mem-flat_map_run f {a} (x ∷ xs) h m =
      let (y, hy, h1) = >>=-eq-done (f x) _ h in
      let (zs, hz, h2) = >>=-eq-done (flat_map_run f xs) _ h1 in
      elim m [
        | Memᴰ.head e ↦
            (y, ap f e ∙ hy, λ b mb. subst (Memᴰ b) (done-inj h2) (Memᴰ.append_left zs mb))
        | Memᴰ.tail m ↦
            let (bs, hbs, inside) = mem-flat_map_run f xs hz m in
            (bs, hbs, λ b mb. subst (Memᴰ b) (done-inj h2) (Memᴰ.append_right y (inside b mb)))
      ]
