-- ===== src/Base/Members.antt =====
-- Members of lists that are collected or mapped, and of the part of a list that is passed.
use mathlib.Core.Path.{◌≡◌, refl, sym, ap, ◌∙◌, subst}
use mathlib.Core.List.{List, [], ◌∷◌, ◌++◌, map, Memᴰ, Nodup, Nodup-nil, Nodup-cons}
use mathlib.Core.List.Memᴰ
use mathlib.Core.Logic.{inl, inr}
use linux_rtfm.Base.Lists.{collect, All}
use mathlib.Core.Logic.{∥∥₁_elim}
use mathlib.Core.HLevel.{⊥_prop}

module _ {ℓ κ} {A : Type ℓ} {B : Type κ} where
  pub mem-collect :
      (f : A → List B) {x : A} {y : B} {xs : List A}
      → Memᴰ x xs
      → Memᴰ y (f x)
      → Memᴰ y (collect f xs)
  mem-collect f {xs = []} d m = elim d [ ]
  mem-collect f {x} {y} {xs = z ∷ zs} (Memᴰ.head e) m =
      Memᴰ.append_left (collect f zs) (subst (λ a. Memᴰ y (f a)) e m)
  mem-collect f {x} {y} {xs = z ∷ zs} (Memᴰ.tail d) m = Memᴰ.append_right (f z) (mem-collect f d m)

  pub mem-collect_inv :
      (f : A → List B) {y : B} (xs : List A)
      → Memᴰ y (collect f xs)
      → (x : A) × Memᴰ x xs × Memᴰ y (f x)
  mem-collect_inv f [] m = elim m [ ]
  mem-collect_inv f (x ∷ xs) m = elim (Memᴰ.append_cases (f x) m) [
    | inl here ↦ (x, Memᴰ.head refl, here)
    | inr there ↦ let (z, inside, of) = mem-collect_inv f xs there in (z, Memᴰ.tail inside, of)
  ]

  pub mem-map_inv :
      (f : A → B) {y : B} (xs : List A) → Memᴰ y (map f xs) → (x : A) × Memᴰ x xs × (y ≡ f x)
  mem-map_inv f [] m = elim m [ ]
  mem-map_inv f (x ∷ xs) (Memᴰ.head e) = (x, Memᴰ.head refl, e)
  mem-map_inv f (x ∷ xs) (Memᴰ.tail m) =
      let (z, inside, e) = mem-map_inv f xs m in (z, Memᴰ.tail inside, e)

module _ {ℓ} {A : Type ℓ} where
  -- Where a list is passed up to a member that is not among the first ones, these are passed.
  pub passed-first :
      (passed rest xs ys : List A) {x : A}
      → passed ++ rest ≡ xs ++ ys
      → Memᴰ x passed
      → (Memᴰ x xs → ⊥)
      → (zs : List A) × (passed ≡ xs ++ zs)
  passed-first passed rest [] ys e m new = (passed, refl)
  passed-first [] rest (z ∷ xs) ys e m new = elim m [ ]
  passed-first (p ∷ passed) rest (z ∷ xs) ys {x} e m new =
      let same : p ≡ z = cc in
      let later : passed ++ rest ≡ xs ++ ys = cc in
      elim m [
        | Memᴰ.head h ↦ absurd (new (Memᴰ.head (h ∙ same)))
        | Memᴰ.tail d ↦
            let (zs, h) = passed-first passed rest xs ys later d (λ w. new (Memᴰ.tail w)) in
            (zs, subst (λ a. p ∷ passed ≡ a ∷ xs ++ zs) same (ap (λ l. p ∷ l) h))
      ]

pub All-mem {ℓ κ} : {A : Type ℓ} (P : A → Type κ) (xs : List A) {x : A} → All P xs → Memᴰ x xs → P x
All-mem P [] all m = elim m [ ]
All-mem P (y ∷ ys) all (Memᴰ.head e) = subst P (sym e) all.0
All-mem P (y ∷ ys) all (Memᴰ.tail m) = All-mem P ys all.1 m

pub All-of {ℓ κ} :
    {A : Type ℓ} (P : A → Type κ) (xs : List A) → ((x : A) → Memᴰ x xs → P x) → All P xs
All-of P [] h = tt
All-of P (x ∷ xs) h = (h x (Memᴰ.head refl), All-of P xs (λ y m. h y (Memᴰ.tail m)))

pub Nodup-map {ℓ κ} :
    {A : Type ℓ} {B : Type κ} (f : A → B)
    → ((x y : A) → f x ≡ f y → x ≡ y)
    → (xs : List A) → Nodup xs
    → Nodup (map f xs)
Nodup-map f injective [] d = Nodup-nil
Nodup-map f injective (x ∷ xs) d =
    let (new, rest) = Nodup-cons.0 d in
    Nodup-cons.1 (
      λ m. ∥∥₁_elim m ⊥_prop λ w.
          let (y, inside, same) = mem-map_inv f xs w in
          new ∣ subst (λ z. Memᴰ z xs) (sym (injective x y same)) inside ∣₁,
      Nodup-map f injective xs rest,
    )
