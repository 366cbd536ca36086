-- ===== src/Macros/Collect/Sorted.antt =====
-- Ascending and descending lists of numbers: what collecting into a set or a map leaves.
use mathlib.Core.Bool.{false≢true}
use mathlib.Core.List.{reverse-append, Memᴰ}
use linux_rtfm.Base.{
  ℕ, suc, ◌+◌, ◌<◌, ◌≡◌, refl, sym, ◌∙◌, true, ◌||◌, none, some, List, [], ◌∷◌, ◌++◌, reverse,
  length, length-append, ltb, ◌==◌, if◌then◌else◌, arith, All, All-append, Bool-cases, inl, inr,
  subst, ==_iff,
}
use linux_rtfm.Macros.Collect.{Map, insert, collect_set, get, insert_map, elem}

abbrev pub Asc : List ℕ → Type 0
Asc [] = Unit
Asc (x ∷ xs) = All (λ y. x < y) xs × Asc xs

abbrev pub Desc : List ℕ → Type 0
Desc [] = Unit
Desc (x ∷ xs) = All (λ y. y < x) xs × Desc xs

-- How many of the numbers are greater than `p`.
unfoldable pub above : ℕ → List ℕ → ℕ
above p [] = 0
above p (x ∷ xs) = (if ltb p x then 1 else 0) + above p xs

insert-All : (P : ℕ → Type 0) (x : ℕ) (xs : List ℕ) → P x → All P xs → All P (insert ltb x xs)
unfolding insert
insert-All P x [] px h = (px, h)
insert-All P x (y ∷ ys) px h = elim (Bool-cases (ltb x y)) [
  | inl below ↦ rw (below, insert) (px, h)
  | inr not_below ↦ elim (Bool-cases (ltb y x)) [
    | inl over ↦ rw (not_below, over, insert) (h.0, insert-All P x ys px h.1)
    | inr same ↦ rw (not_below, same, insert) h
  ]
]

All-trans : (x y : ℕ) (xs : List ℕ) → x < y → All (λ z. y < z) xs → All (λ z. x < z) xs
All-trans x y [] h a = tt
All-trans x y (z ∷ zs) h a = (omega arith, All-trans x y zs h a.1)

insert-Asc : (x : ℕ) (xs : List ℕ) → Asc xs → Asc (insert ltb x xs)
unfolding insert
insert-Asc x [] a = (tt, tt)
insert-Asc x (y ∷ ys) a = elim (Bool-cases (ltb x y)) [
  | inl below ↦ rw (below, insert) ((ground arith, All-trans x y ys (ground arith) a.0), a)
  | inr not_below ↦ elim (Bool-cases (ltb y x)) [
    | inl over ↦
        rw (not_below, over, insert)
          (insert-All (λ z. y < z) x ys (ground arith) a.0, insert-Asc x ys a.1)
    | inr same ↦ rw (not_below, same, insert) a
  ]
]

pub collect_set-Asc : (xs : List ℕ) → Asc (collect_set ltb xs)
unfolding collect_set
collect_set-Asc [] = tt
collect_set-Asc (x ∷ xs) = insert-Asc x (collect_set ltb xs) (collect_set-Asc xs)

elem-insert : (p x : ℕ) (xs : List ℕ) → elem p (insert ltb x xs) ≡ (x == p || elem p xs)
unfolding insert elem
elem-insert p x [] = refl
elem-insert p x (y ∷ ys) = ground (arith, elem-insert p x ys)

pub elem-collect_set : (p : ℕ) (xs : List ℕ) → elem p (collect_set ltb xs) ≡ elem p xs
unfolding collect_set elem
elem-collect_set p [] = refl
elem-collect_set p (x ∷ xs) = elem-insert p x (collect_set ltb xs) ∙ rw (elem-collect_set p xs)

-- Reversal turns one order into the other and keeps what is held.
All-reverse : (P : ℕ → Type 0) (xs : List ℕ) → All P xs → All P (reverse xs)
All-reverse P [] h = h
All-reverse P (x ∷ xs) h =
    rw (reverse-append (x ∷ []) xs)
      (All-append P (reverse xs) (x ∷ []) (All-reverse P xs h.1) (h.0, tt))

Desc-snoc : (x : ℕ) (xs : List ℕ) → Desc xs → All (λ y. x < y) xs → Desc (xs ++ x ∷ [])
Desc-snoc x [] d h = (tt, tt)
Desc-snoc x (y ∷ ys) d h =
    (All-append (λ z. z < y) ys (x ∷ []) d.0 (h.0, tt), Desc-snoc x ys d.1 h.1)

pub reverse-Desc : (xs : List ℕ) → Asc xs → Desc (reverse xs)
reverse-Desc [] a = tt
reverse-Desc (x ∷ xs) a =
    rw (reverse-append (x ∷ []) xs)
      (Desc-snoc x (reverse xs) (reverse-Desc xs a.1) (All-reverse (λ y. x < y) xs a.0))

above-append : (p : ℕ) (xs ys : List ℕ) → above p (xs ++ ys) ≡ above p xs + above p ys
unfolding above
above-append p [] ys = omega arith
above-append p (x ∷ xs) ys = omega (arith, above-append p xs ys)

pub elem-append : (p : ℕ) (xs ys : List ℕ) → elem p (xs ++ ys) ≡ (elem p xs || elem p ys)
unfolding elem
elem-append p [] ys = refl
elem-append p (x ∷ xs) ys = ground (arith, elem-append p xs ys)

pub above-reverse : (p : ℕ) (xs : List ℕ) → above p (reverse xs) ≡ above p xs
unfolding above
above-reverse p [] = refl
above-reverse p (x ∷ xs) =
    rw (reverse-append (x ∷ []) xs, above-append p (reverse xs) (x ∷ []), above-reverse p xs)
      (omega arith)

pub elem-reverse : (p : ℕ) (xs : List ℕ) → elem p (reverse xs) ≡ elem p xs
unfolding elem
elem-reverse p [] = refl
elem-reverse p (x ∷ xs) =
    rw (reverse-append (x ∷ []) xs, elem-append p (reverse xs) (x ∷ []), elem-reverse p xs)
      (ground arith)

pub length-reverse : (xs : List ℕ) → length (reverse xs) ≡ length xs
length-reverse [] = refl
length-reverse (x ∷ xs) =
    rw (reverse-append (x ∷ []) xs, length-append (reverse xs) (x ∷ []), length-reverse xs)
      (omega arith)

pub elem-All : (P : ℕ → Type 0) (p : ℕ) (xs : List ℕ) → elem p xs ≡ true → All P xs → P p
unfolding elem
elem-All P p [] h a = absurd (false≢true h)
elem-All P p (x ∷ xs) h a = elim (Bool-cases (x == p)) [
  | inl same ↦ subst P ((==_iff x p).0 same) a.0
  | inr other ↦ elem-All P p xs (rw (other, elem) at h) a.1
]

pub above_none : (p : ℕ) (xs : List ℕ) → All (λ y. y < p) xs → above p xs ≡ 0
unfolding above
above_none p [] a = refl
above_none p (x ∷ xs) a = ground (arith, above_none p xs a.1)

pub get-insert_map :
    {V : Type 0} (p k : ℕ) (v : V) (m : Map V)
    → get p (insert_map k v m) ≡ (if k == p then some v else get p m)
unfolding get insert_map
get-insert_map p k v [] = refl
get-insert_map p k v ((j, w) ∷ m) = ground (arith, get-insert_map p k v m)

pub length-insert_map :
    {V : Type 0} (k : ℕ) (v : V) (m : Map V)
    → get k m ≡ none
    → length (insert_map k v m) ≡ suc (length m)
unfolding get insert_map
length-insert_map k v [] h = refl
length-insert_map k v ((j, w) ∷ m) h = ground (arith, length-insert_map k v m)

pub elem_mem : (k : ℕ) (xs : List ℕ) → Memᴰ k xs → elem k xs ≡ true
unfolding elem
elem_mem k [] m = elim m [ ]
elem_mem k (x ∷ xs) (Memᴰ.head e) = let same : x ≡ k = sym e in ground arith
elem_mem k (x ∷ xs) (Memᴰ.tail m) = let rest = elem_mem k xs m in ground arith
