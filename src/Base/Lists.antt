-- ===== src/Base/Lists.antt =====
-- Lists over the native numbers, and predicates on all their members.
use Prim.Native.Nat.{ℕ, zero, suc, ◌+◌, ◌<◌}
use mathlib.Core.Path.{◌≡◌, refl, sym, ap, ◌∙◌}
use mathlib.Core.Logic.{◌≢◌}
use mathlib.Core.List.{List, [], ◌∷◌, ◌++◌, map, append-nil, append_assoc}
use mathlib.Core.Option.{Option, none, some}
use native.Mathlib.Omega.{arith}
use native.Mathlib.Nat.{ℕ_set}
use mathlib.Core.List.{Perm, Permᴰ}
use mathlib.Core.Logic.{∥∥₁_elim}

module _ {ℓ} {A : Type ℓ} where
  abbrev pub length : List A → ℕ
  length [] = 0
  length (x ∷ xs) = suc (length xs)

  abbrev pub get_elem? : List A → ℕ → Option A
  get_elem? [] i = none
  get_elem? (x ∷ xs) zero = some x
  get_elem? (x ∷ xs) (suc i) = get_elem? xs i

  -- A write out of bounds changes nothing.
  abbrev pub set : List A → ℕ → A → List A
  set [] i v = []
  set (x ∷ xs) zero v = v ∷ xs
  set (x ∷ xs) (suc i) v = x ∷ set xs i v

  pub length-append : (xs ys : List A) → length (xs ++ ys) ≡ length xs + length ys
  length-append [] ys = omega arith
  length-append (x ∷ xs) ys = omega (arith, length-append xs ys)

  abbrev pub All {κ} : (A → Type κ) → List A → Type κ
  All P [] = Unit
  All P (x ∷ xs) = P x × All P xs

  pub All-append {κ} : (P : A → Type κ) (xs ys : List A) → All P xs → All P ys → All P (xs ++ ys)
  All-append P [] ys hx hy = hy
  All-append P (x ∷ xs) ys hx hy = (hx.0, All-append P xs ys hx.1 hy)

module _ {ℓ} {A : Type ℓ} where
  length-Permᴰ : {xs ys : List A} → Permᴰ xs ys → length xs ≡ length ys
  length-Permᴰ Permᴰ.nil = refl
  length-Permᴰ (Permᴰ.cons e d) = ap suc (length-Permᴰ d)
  length-Permᴰ (Permᴰ.swap e f) = refl
  length-Permᴰ (Permᴰ.trans d e) = length-Permᴰ d ∙ length-Permᴰ e

  pub length-Perm : {xs ys : List A} → Perm xs ys → length xs ≡ length ys
  unfolding Perm
  length-Perm p = ∥∥₁_elim p (ℕ_set _ _) length-Permᴰ

  pub length-set : (xs : List A) (i : ℕ) (v : A) → length (set xs i v) ≡ length xs
  length-set [] i v = refl
  length-set (x ∷ xs) zero v = refl
  length-set (x ∷ xs) (suc i) v = ap suc (length-set xs i v)

  pub get_elem?-set_self :
      (xs : List A) (i : ℕ) (v : A) → i < length xs → get_elem? (set xs i v) i ≡ some v
  get_elem?-set_self [] i v h = elim h [ ]
  get_elem?-set_self (x ∷ xs) zero v h = refl
  get_elem?-set_self (x ∷ xs) (suc i) v h = get_elem?-set_self xs i v (omega arith)

  pub get_elem?-set_ne :
      (xs : List A) (i j : ℕ) (v : A) → i ≢ j → get_elem? (set xs i v) j ≡ get_elem? xs j
  get_elem?-set_ne [] i j v h = refl
  get_elem?-set_ne (x ∷ xs) zero zero v h = absurd (h refl)
  get_elem?-set_ne (x ∷ xs) zero (suc j) v h = refl
  get_elem?-set_ne (x ∷ xs) (suc i) zero v h = refl
  get_elem?-set_ne (x ∷ xs) (suc i) (suc j) v h = get_elem?-set_ne xs i j v (λ e. h (ap suc e))

-- What each member gives, in order.
module _ {ℓ κ} {A : Type ℓ} {B : Type κ} where
  abbrev pub collect : (A → List B) → List A → List B
  collect f [] = []
  collect f (x ∷ xs) = f x ++ collect f xs

  pub collect-append :
      (f : A → List B) (xs ys : List A) → collect f (xs ++ ys) ≡ collect f xs ++ collect f ys
  collect-append f [] ys = refl
  collect-append f (x ∷ xs) ys =
      ap (λ l. f x ++ l) (collect-append f xs ys)
      ∙ sym (append_assoc (f x) (collect f xs) (collect f ys))

  pub collect-snoc :
      (f : A → List B) (xs : List A) (x : A) → collect f (xs ++ x ∷ []) ≡ collect f xs ++ f x
  collect-snoc f xs x =
      collect-append f xs (x ∷ []) ∙ ap (λ l. collect f xs ++ l) (append-nil (f x))

  pub map-snoc : (f : A → B) (xs : List A) (x : A) → map f (xs ++ x ∷ []) ≡ map f xs ++ f x ∷ []
  map-snoc f [] x = refl
  map-snoc f (y ∷ ys) x = ap (λ l. f y ∷ l) (map-snoc f ys x)

module _ {ℓ κ μ} {A : Type ℓ} {B : Type κ} {C : Type μ} (mark : B → List C) (f : A → B) where
  pub collect-map_none : ((x : A) → mark (f x) ≡ []) → (xs : List A) → collect mark (map f xs) ≡ []
  collect-map_none h [] = refl
  collect-map_none h (x ∷ xs) = rw (h x) (collect-map_none h xs)

  pub collect-map_each :
      (name : A → C)
      → ((x : A) → mark (f x) ≡ name x ∷ [])
      → (xs : List A) → collect mark (map f xs) ≡ map name xs
  collect-map_each name h [] = refl
  collect-map_each name h (x ∷ xs) = rw (h x) (ap (λ l. name x ∷ l) (collect-map_each name h xs))

module _ {ℓ κ} {A : Type ℓ} {B : Type κ} where
  pub collect-none : (f : A → List B) (xs : List A) → All (λ x. f x ≡ []) xs → collect f xs ≡ []
  collect-none f [] h = refl
  collect-none f (x ∷ xs) (h, hs) = rw h (collect-none f xs hs)

pub All-map {ℓ κ μ} :
    {A : Type ℓ} {B : Type κ} (P : B → Type μ) (f : A → B) (xs : List A)
    → ((x : A) → P (f x))
    → All P (map f xs)
All-map P f [] h = tt
All-map P f (x ∷ xs) h = (h x, All-map P f xs h)
