-- ===== src/Common/Exec.antt =====
-- Fallible code that changes a state: a result, and the state that the code leaves behind. What was
-- changed before an error stays changed, so the state comes back beside the error too.
use mathlib.Core.Path.{◌≡◌, refl, ap}

pub data Result {ℓ} (E A : Type ℓ) : Type ℓ where
  ok : A → Result E A
  err : E → Result E A

abbrev pub Exec {ℓ} : Type ℓ → Type ℓ → Type ℓ → Type ℓ
Exec E S A = S → Result E A × S

module _ {ℓ} {E S A : Type ℓ} where
  abbrev pub pure : A → Exec E S A
  pure a s = (ok a, s)

  abbrev pub raise : E → Exec E S A
  raise e s = (err e, s)

  abbrev pub lift : Result E A → Exec E S A
  lift r s = (r, s)

  abbrev pub gets : (S → A) → Exec E S A
  gets f s = (ok (f s), s)

module _ {ℓ} {E S A B : Type ℓ} where
  -- What follows a result: the rest of the block, or nothing after an error (Rust's `?`).
  abbrev pub continue : Result E A → (A → Exec E S B) → Exec E S B
  continue (ok a) f s = f a s
  continue (err e) f s = (err e, s)

  infixl 10 ◌>>=◌ ◌>>◌
  abbrev pub ◌>>=◌ : Exec E S A → (A → Exec E S B) → Exec E S B
  ◌>>=◌ m f s = let (r, s') = m s in continue r f s'

  abbrev pub ◌>>◌ : Exec E S A → Exec E S B → Exec E S B
  m >> n = m >>= λ _. n

module _ {ℓ} {E S A B C : Type ℓ} where
  continue_assoc :
      (f : A → Exec E S B) (g : B → Exec E S C) (x : Result E A × S)
      → continue x.0 (λ a. f a >>= g) x.1 ≡ (let y = continue x.0 f x.1 in continue y.0 g y.1)
  continue_assoc f g (ok a, s) = refl
  continue_assoc f g (err e, s) = refl

  -- The blocks of code may be grouped at will.
  pub bind_assoc :
      (m : Exec E S A) (f : A → Exec E S B) (g : B → Exec E S C) (s : S)
      → (m >>= λ a. f a >>= g) s ≡ (m >>= f >>= g) s
  bind_assoc m f g s = continue_assoc f g (m s)

module _ {ℓ} {E S A B : Type ℓ} where
  -- Code that succeeds, and what follows it.
  pub bind-ok :
      (m : Exec E S A) (f : A → Exec E S B) {s s' : S} {a : A}
      → m s ≡ (ok a, s')
      → (m >>= f) s ≡ f a s'
  bind-ok m f {s} {s'} {a} h = ap (λ (x : Result E A × S). continue x.0 f x.1) h

  pub bind-err :
      (m : Exec E S A) (f : A → Exec E S B) {s s' : S} {e : E}
      → m s ≡ (err e, s')
      → (m >>= f) s ≡ (err e, s')
  bind-err m f h = ap (λ (x : Result E A × S). continue x.0 f x.1) h

-- `map_err`, and the conversion of errors by `?`.
abbrev pub map_result {ℓ} : {E F A : Type ℓ} → (E → F) → Result E A → Result F A
map_result f (ok a) = ok a
map_result f (err e) = err (f e)

abbrev pub map_err {ℓ} : {E F S A : Type ℓ} → (E → F) → Exec E S A → Exec F S A
map_err f m s = let (r, s') = m s in (map_result f r, s')

-- Code on the second part of a state.
abbrev pub on_snd {ℓ} : {E S T A : Type ℓ} → Exec E T A → Exec E (S × T) A
on_snd m (s, t) = let (r, t') = m t in (r, (s, t'))
