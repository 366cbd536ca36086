-- ===== src/Base/Run.antt =====
-- A computation that returns or panics.
use mathlib.Core.Path.{◌≡◌, refl}
use mathlib.Core.Option.{Option, none, some}
use mathlib.Core.List.{List, [], ◌∷◌, ◌++◌}

pub data Run {ℓ} (A : Type ℓ) : Type ℓ where
  done : A → Run A
  panic : Run A

infixl 5 ◌>>=◌ ◌>>◌
abbrev pub ◌>>=◌ {ℓ κ} : {A : Type ℓ} {B : Type κ} → Run A → (A → Run B) → Run B
done a >>= f = f a
panic >>= f = panic

abbrev pub ◌>>◌ {ℓ κ} : {A : Type ℓ} {B : Type κ} → Run A → Run B → Run B
m >> k = m >>= λ _. k

-- `unwrap`, `expect`, and a map's `[]`
abbrev pub unwrap {ℓ} : {A : Type ℓ} → Option A → Run A
unwrap none = panic
unwrap (some a) = done a

-- `iter().map(f).collect()` where `f` may panic
abbrev pub map_run {ℓ κ} : {A : Type ℓ} {B : Type κ} → (A → Run B) → List A → Run (List B)
map_run f [] = done []
map_run f (x ∷ xs) = do y ← f x; ys ← map_run f xs; done (y ∷ ys)

pub >>=-eq-done {ℓ κ} :
    {A : Type ℓ} {B : Type κ} (m : Run A) (f : A → Run B) {b : B}
    → (m >>= f) ≡ done b
    → (a : A) × (m ≡ done a) × (f a ≡ done b)
>>=-eq-done (done a) f h = (a, refl, h)
>>=-eq-done panic f h = cc

pub done-inj {ℓ} : {A : Type ℓ} {a b : A} → done a ≡ done b → a ≡ b
done-inj h = cc

-- A loop that pushes what each round gives, where a round may panic.
abbrev pub flat_map_run {ℓ κ} :
    {A : Type ℓ} {B : Type κ} → (A → Run (List B)) → List A → Run (List B)
flat_map_run f [] = done []
flat_map_run f (x ∷ xs) = do ys ← f x; rest ← flat_map_run f xs; done (ys ++ rest)

pub unwrap-eq-done {ℓ} : {A : Type ℓ} (m : Option A) {a : A} → unwrap m ≡ done a → m ≡ some a
unwrap-eq-done none h = cc
unwrap-eq-done (some a) h = cc
