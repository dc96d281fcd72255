-- ===== src/Replication/Cluster/Prefix.antt =====
-- Logs that begin as others do.
use wal_distributed_rs.Common.{
  ℕ, ◌≤◌, ◌<◌, ◌≡◌, sym, ap, ◌∙◌, some, List, ◌++◌, length, take, take_all, take-take, length-take,
  get_elem?, arith, suc, inl, inr, ◌⊎◌, leb, Bool-cases, leb→le, not-leb→lt,
}
use wal_distributed_rs.Replication.Log.Record.{LogEntry}
use wal_distributed_rs.Replication.Log.Terms.{get_elem?-lt}
use wal_distributed_rs.Replication.Log.Entries.{get-take}
use wal_distributed_rs.Replication.Cluster.Reigns.{take-append_le, Reigns, Grounded}

abbrev pub Prefix : List LogEntry → List LogEntry → Type 0
Prefix a x = take (length a) x ≡ a

-- No entry has a higher term.
abbrev pub Upto : ℕ → List LogEntry → Type 0
Upto m x = (i : ℕ) (e : LogEntry) → get_elem? x i ≡ some e → e.term ≤ m

pub Prefix-self : (a : List LogEntry) → Prefix a a
Prefix-self a = take_all (length a) a (omega arith)

pub Prefix-le : (a x : List LogEntry) → Prefix a x → length a ≤ length x
Prefix-le a x h = omega (arith, ap (length {A = LogEntry}) h, length-take (length a) x)

pub Prefix-append : (a x y : List LogEntry) → Prefix a x → Prefix a (x ++ y)
Prefix-append a x y h = take-append_le (length a) x y (Prefix-le a x h) ∙ h

pub Prefix-trans : (a b x : List LogEntry) → Prefix a b → Prefix b x → Prefix a x
Prefix-trans a b x h k =
    sym (take-take (length a) (length b) x (Prefix-le a b h)) ∙ ap (take (length a)) k ∙ h

-- Lists that agree as far as `a` goes.
pub Prefix-same :
    (a x y : List LogEntry) (k : ℕ) → take k x ≡ take k y → length a ≤ k → Prefix a x → Prefix a y
Prefix-same a x y k same le h =
    sym (take-take (length a) k y le)
    ∙ ap (take (length a)) (sym same)
    ∙ take-take (length a) k x le
    ∙ h

pub Prefix-take : (a x : List LogEntry) (k : ℕ) → length a ≤ k → Prefix a x → Prefix a (take k x)
Prefix-take a x k le h = take-take (length a) k x le ∙ h

pub Prefix-get :
    (a x : List LogEntry) (i : ℕ) → Prefix a x → i < length a → get_elem? x i ≡ get_elem? a i
Prefix-get a x i h short = sym (get-take (length a) i x short) ∙ ap (λ l. get_elem? l i) h

pub Prefix-Upto : (a x : List LogEntry) (m : ℕ) → Prefix a x → Upto m x → Upto m a
Prefix-Upto a x m h u i e found = u i e (Prefix-get a x i h (get_elem?-lt a i e found) ∙ found)

-- Of two prefixes of one list, the shorter is one of the longer.
pub Prefix-either : (a b x : List LogEntry) → Prefix a x → Prefix b x → Prefix a b ⊎ Prefix b a
Prefix-either a b x h k = elim (Bool-cases (leb (length a) (length b))) [
  | inl short ↦
      inl (sym (ap (take (length a)) k) ∙ take-take (length a) (length b) x (leb→le _ _ short) ∙ h)
  | inr long ↦ inr (
      let le : length b ≤ length a = omega (arith, not-leb→lt _ _ long) in
      sym (ap (take (length b)) h) ∙ take-take (length b) (length a) x le ∙ k)
]

-- Where leaders' logs have no terms above their own, the terms of a log do not fall.
pub Grounded-Upto :
    (r : Reigns) (x : List LogEntry) (j : ℕ) (f : LogEntry)
    → Grounded r x
    → ((t : ℕ) (log : List LogEntry) → r t ≡ some log → Upto t log)
    → get_elem? x j ≡ some f
    → (i : ℕ) (e : LogEntry) → i ≤ j
    → get_elem? x i ≡ some e
    → e.term ≤ f.term
Grounded-Upto r x j f g upto found i e le at =
    let (led, by, same) = g j f found in
    upto f.term led by i e (
      sym (get-take (suc j) i led (omega (arith, le)))
      ∙ ap (λ l. get_elem? l i) (sym same)
      ∙ get-take (suc j) i x (omega (arith, le))
      ∙ at)
