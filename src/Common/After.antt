-- ===== src/Common/After.antt =====
-- What holds after fallible code, of its result and of the state that it leaves, through a block.
use wal_distributed_rs.Common.Tests.{if◌then◌else◌}
use mathlib.Core.Bool.{Bool, true, false}
use wal_distributed_rs.Common.Exec.{Result, ok, err, Exec, ◌>>=◌, continue}

After-continue {ℓ κ μ} :
    {E S A B : Type ℓ} (Q : Result E A × S → Type μ) (P : Result E B × S → Type κ)
    (x : Result E A × S) (f : A → Exec E S B)
    → Q x
    → ((a : A) (s : S) → Q (ok a, s) → P (f a s))
    → ((e : E) (s : S) → Q (err e, s) → P (err e, s))
    → P (continue x.0 f x.1)
After-continue Q P (ok a, s) f q go stop = go a s q
After-continue Q P (err e, s) f q go stop = stop e s q

-- The first part, and what follows if it succeeds; an error ends the block.
pub After-bind {ℓ κ μ} :
    {E S A B : Type ℓ} (Q : Result E A × S → Type μ) (P : Result E B × S → Type κ) (m : Exec E S A)
    (f : A → Exec E S B) (s : S)
    → Q (m s)
    → ((a : A) (s' : S) → Q (ok a, s') → P (f a s'))
    → ((e : E) (s' : S) → Q (err e, s') → P (err e, s'))
    → P ((m >>= f) s)
After-bind Q P m f s q go stop = After-continue Q P (m s) f q go stop

-- Where the state alone is spoken of, an error leaves nothing to show.
pub Leaves-bind {ℓ κ} :
    {E S A B : Type ℓ} (P : S → Type κ) (m : Exec E S A) (f : A → Exec E S B) (s : S)
    → P (m s).1
    → ((a : A) (s' : S) → P s' → P (f a s').1)
    → P ((m >>= f) s).1
Leaves-bind P m f s h go = After-bind (λ x. P x.1) (λ x. P x.1) m f s h go (λ e s' p. p)

-- Either way of a test.
pub on_if {ℓ κ} :
    {A : Type ℓ} (P : A → Type κ) (b : Bool) {x y : A} → P x → P y → P (if b then x else y)
on_if P true h k = h
on_if P false h k = k
