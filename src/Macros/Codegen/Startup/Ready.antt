-- ===== src/Macros/Codegen/Startup/Ready.antt =====
-- Which statements of the threads of macros/src/codegen.rs wait: that of a barrier and that of a
-- thread id (src/export.rs).
use mathlib.Core.List.{Memᴰ}
use linux_rtfm.Base.{◌≡◌, refl, true, List, [], ◌∷◌, collect}
use linux_rtfm.Macros.Ident.{Ident}
use linux_rtfm.Macros.Codegen.Code.{Stmt, wait_tid, wait_barrier}
use linux_rtfm.Macros.Codegen.Startup.{returns}
use linux_rtfm.Macros.Codegen.Startup.Releases.{not-marked}

-- What a statement waits for.
abbrev pub blocking : Stmt → List Ident
blocking (wait_barrier b) = b ∷ []
blocking (wait_tid tid) = tid ∷ []
blocking stmt = []

-- What waits for nothing returns.
returns_free :
    (h : List Stmt) (stmt : Stmt)
    → ((c : Ident) → Memᴰ c (blocking stmt) → ⊥)
    → returns h stmt ≡ true
returns_free h (wait_barrier b) free = absurd (free b (Memᴰ.head refl))
returns_free h (wait_tid tid) free = absurd (free tid (Memᴰ.head refl))
returns_free h stmt free = refl

pub returns-unblocked :
    (h : List Stmt) (stmt : Stmt) (xs : List Stmt)
    → collect blocking xs ≡ []
    → Memᴰ stmt xs
    → returns h stmt ≡ true
returns-unblocked h stmt xs clear m =
    returns_free h stmt (λ c of. not-marked blocking xs clear of m)
