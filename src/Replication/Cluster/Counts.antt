-- ===== src/Replication/Cluster/Counts.antt =====
-- Counting the members of a list that pass a test.
use wal_distributed_rs.Common.{
  inr, inl, ◌⊎◌, ℕ, ◌+◌, ◌<◌, ◌≡◌, ◌∙◌, refl, ap, Bool, true, List, [], ◌∷◌, length, arith,
  if◌then◌else◌,
}
use mathlib.Core.List.{Permᴰ}

abbrev pub one_if : Bool → ℕ
one_if b = if b then 1 else 0

module _ {A : Type 0} where
  abbrev pub count : (A → Bool) → List A → ℕ
  count p [] = 0
  count p (x ∷ xs) = one_if (p x) + count p xs

  -- The order does not matter.
  pub count-perm : (p : A → Bool) {xs ys : List A} → Permᴰ xs ys → count p xs ≡ count p ys
  count-perm p Permᴰ.nil = refl
  count-perm p (Permᴰ.cons e h) = omega (arith, count-perm p h, ap (λ x. one_if (p x)) e)
  count-perm p (Permᴰ.swap e f) = omega (arith, ap (λ x. one_if (p x)) e, ap (λ x. one_if (p x)) f)
  count-perm p (Permᴰ.trans h k) = count-perm p h ∙ count-perm p k

  pub length-perm : {xs ys : List A} → Permᴰ xs ys → length xs ≡ length ys
  length-perm Permᴰ.nil = refl
  length-perm (Permᴰ.cons e h) = omega (arith, length-perm h)
  length-perm (Permᴰ.swap e f) = refl
  length-perm (Permᴰ.trans h k) = length-perm h ∙ length-perm k

  either_or_rest :
      (p q : A → Bool) (x : A) (xs : List A)
      → length (x ∷ xs) < count p (x ∷ xs) + count q (x ∷ xs)
      → ((p x ≡ true) × (q x ≡ true)) ⊎ (length xs < count p xs + count q xs)
  either_or_rest p q x xs h = ground (arith, h)

  -- Two tests that more members pass than there are pass together somewhere.
  pub counts_overlap :
      (p q : A → Bool) (xs : List A)
      → length xs < count p xs + count q xs
      → (x : A) × (p x ≡ true) × (q x ≡ true)
  counts_overlap p q [] h = absurd (omega (arith, h))
  counts_overlap p q (x ∷ xs) h = elim (either_or_rest p q x xs h) [
    | inl (e, f) ↦ (x, e, f)
    | inr more ↦ counts_overlap p q xs more
  ]
