-- ===== src/Base/State.antt =====
-- Stateful code that may panic: a function from a state to a result and the next state.
use mathlib.Core.Path.{◌≡◌, sym, subst}
use mathlib.Core.Option.{Option, none, some}
use linux_rtfm.Base.Run.{Run, done, panic}

abbrev pub State : Type 0 → Type 0 → Type 0
State S A = S → Run (A × S)

abbrev pub and_then : {S T A B : Type 0} → Run (A × S) → (A → S → Run (B × T)) → Run (B × T)
and_then (done (a, s)) f = f a s
and_then panic f = panic

infixl 5 ◌>>=◌ ◌>>◌
abbrev pub ◌>>=◌ : {S A B : Type 0} → State S A → (A → State S B) → State S B
◌>>=◌ m f s = and_then (m s) f

abbrev pub ◌>>◌ : {S A B : Type 0} → State S A → State S B → State S B
m >> k = m >>= λ _. k

abbrev pub pure : {S A : Type 0} → A → State S A
pure a s = done (a, s)

abbrev pub gets : {S A : Type 0} → (S → A) → State S A
gets f s = done (f s, s)

abbrev pub modify : {S : Type 0} → (S → S) → State S (Unit {0})
modify f s = done (tt, f s)

-- Code that sees only a part of the state.
abbrev pub zoom : {S T A : Type 0} → (T → S) → (S → T → T) → State S A → State T A
zoom get put m t = and_then (m (get t)) (λ a s. done (a, put s t))

-- `expect`, or `unwrap`, of a call's result.
abbrev pub expect {ℓ} : {A : Type ℓ} → Option A → Run A
expect none = panic
expect (some a) = done a

-- A result that is there, and of which `P` holds.
abbrev pub Returns : {A : Type 0} → (A → Type 0) → Run A → Type 0
Returns P (done a) = P a
Returns P panic = ⊥

pub and_then-Returns :
    {S T A B : Type 0} (P : A × S → Type 0) (Q : B × T → Type 0) (x : Run (A × S))
    (f : A → S → Run (B × T))
    → Returns P x
    → ((a : A) (s : S) → P (a, s) → Returns Q (f a s))
    → Returns Q (and_then x f)
and_then-Returns P Q (done (a, s)) f ran next = next a s ran
and_then-Returns P Q panic f ran next = ran

pub expect-Returns :
    {A : Type 0} (P : A → Type 0) (o : Option A) {a : A} → o ≡ some a → P a → Returns P (expect o)
expect-Returns P o e p = subst (λ x. Returns P (expect x)) (sym e) p

pub Returns-imp :
    {A : Type 0} (P Q : A → Type 0) (x : Run A) → ((a : A) → P a → Q a) → Returns P x → Returns Q x
Returns-imp P Q (done a) f p = f a p
Returns-imp P Q panic f p = p
