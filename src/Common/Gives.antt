-- ===== src/Common/Gives.antt =====
-- A property of what fallible code gives, through the parts of a block.
use mathlib.Core.Path.{◌≡◌, subst}
use wal_distributed_rs.Common.Exec.{Result, ok, err, Exec, ◌>>=◌, continue, map_result}

-- What holds of a result, if it is one.
abbrev pub Gives {ℓ κ} : {E A : Type ℓ} → (A → Type κ) → Result E A → Type κ
Gives P (ok a) = P a
Gives P (err e) = Unit

Gives-continue {ℓ κ} :
    {E S A B : Type ℓ} (P : B → Type κ) (r : Result E A) (f : A → Exec E S B) (s : S)
    → ((a : A) (s' : S) → Gives P (f a s').0)
    → Gives P (continue r f s).0
Gives-continue P (ok a) f s h = h a s
Gives-continue P (err e) f s h = tt

pub Gives-bind {ℓ κ} :
    {E S A B : Type ℓ} (P : B → Type κ) (m : Exec E S A) (f : A → Exec E S B) (s : S)
    → ((a : A) (s' : S) → Gives P (f a s').0)
    → Gives P ((m >>= f) s).0
Gives-bind P m f s h = Gives-continue P (m s).0 f (m s).1 h

pub Gives-ok {ℓ κ} :
    {E S A : Type ℓ} (P : A → Type κ) {x : Result E A × S} {a : A} {s : S}
    → x ≡ (ok a, s)
    → Gives P x.0
    → P a
Gives-ok P {x} e h = subst (λ y. Gives P y.0) e h

pub Gives-and {ℓ κ} :
    {E A : Type ℓ} (P : A → Type κ) {Q : Type κ} (r : Result E A)
    → Q
    → Gives P r
    → Gives (λ a. Q × P a) r
Gives-and P (ok a) q h = (q, h)
Gives-and P (err e) q h = tt

pub Gives-map_result {ℓ κ} :
    {E F A : Type ℓ} (P : A → Type κ) (f : E → F) (r : Result E A)
    → Gives P r
    → Gives P (map_result f r)
Gives-map_result P f (ok a) h = h
Gives-map_result P f (err e) h = tt

Gives-continue_with {ℓ κ μ} :
    {E S A B : Type ℓ} (Q : A → Type μ) (P : B → Type κ) (r : Result E A) (f : A → Exec E S B)
    (s : S)
    → Gives Q r
    → ((a : A) → Q a → Gives P (f a s).0)
    → Gives P (continue r f s).0
Gives-continue_with Q P (ok a) f s q h = h a q
Gives-continue_with Q P (err e) f s q h = tt

-- With what is known of the first part's result and of the state behind it.
pub Gives-bind_with {ℓ κ μ} :
    {E S A B : Type ℓ} (Q : A → Type μ) (P : B → Type κ) (m : Exec E S A) (f : A → Exec E S B)
    (s : S)
    → Gives Q (m s).0
    → ((a : A) → Q a → Gives P (f a (m s).1).0)
    → Gives P ((m >>= f) s).0
Gives-bind_with Q P m f s q h = Gives-continue_with Q P (m s).0 f (m s).1 q h

pub Gives-Unit {ℓ} : {E A : Type ℓ} (r : Result E A) → Gives (λ a. Unit {0}) r
Gives-Unit (ok a) = tt
Gives-Unit (err e) = tt
