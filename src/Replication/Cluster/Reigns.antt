-- ===== src/Replication/Cluster/Reigns.antt =====
-- Logs of entries whose terms had one leader each: what each such leader's log came to.
use wal_distributed_rs.Common.{
  ℕ, ◌≤◌, ◌<◌, ◌≡◌, refl, sym, ap, ◌∙◌, Option, none, some, List, [], ◌∷◌, ◌++◌, length, take,
  take-take, length-take, get_elem?, arith, suc, zero, ◌==◌, ==_iff, true, Bool-cases, inl, inr,
  if◌then◌else◌, length-append, ltb, ltb→lt, not-ltb→le,
}
use wal_distributed_rs.Replication.Log.Record.{LogEntry}
use wal_distributed_rs.Replication.Log.Terms.{get_elem?-lt}
use wal_distributed_rs.Replication.Log.Entries.{snoc-get, get-take}

-- The log of the term's leader as it last was, while it led; none, if the term has had no leader.
abbrev pub Reigns : Type 0
Reigns = ℕ → Option (List LogEntry)

abbrev pub crown : ℕ → List LogEntry → Reigns → Reigns
crown t log r = λ s. if s == t then some log else r s

-- Up to each of its entries, the log is that of the leader of the entry's term.
abbrev pub Grounded : Reigns → List LogEntry → Type 0
Grounded r log =
    (i : ℕ) (e : LogEntry)
    → get_elem? log i ≡ some e
    → (led : List LogEntry) × (r e.term ≡ some led) × (take (suc i) log ≡ take (suc i) led)

pub some-inj : {A : Type 0} {x y : A} → some x ≡ some y → x ≡ y
some-inj e = cc

pub take-append_le : (k : ℕ) (xs ys : List LogEntry) → k ≤ length xs → take k (xs ++ ys) ≡ take k xs
take-append_le zero xs ys h = refl
take-append_le (suc k) [] ys h = absurd (omega (arith, h))
take-append_le (suc k) (x ∷ xs) ys h = ap (λ l. x ∷ l) (take-append_le k xs ys (omega (arith, h)))

-- Two logs that agree in the term of an entry agree up to it.
pub Grounded-agree :
    (r : Reigns) (xs ys : List LogEntry) (i : ℕ) (x y : LogEntry)
    → Grounded r xs
    → Grounded r ys
    → get_elem? xs i ≡ some x
    → get_elem? ys i ≡ some y
    → x.term ≡ y.term
    → take (suc i) xs ≡ take (suc i) ys
Grounded-agree r xs ys i x y g h found found' same =
    let (led, by, e) = g i x found in
    let (led', by', e') = h i y found' in
    let one : led ≡ led' = some-inj (sym by ∙ ap r same ∙ by') in e ∙ ap (take (suc i)) one ∙ sym e'

-- A term gets its first leader.
pub Grounded-crown_new :
    (r : Reigns) (t : ℕ) (log xs : List LogEntry)
    → r t ≡ none
    → Grounded r xs
    → Grounded (crown t log r) xs
Grounded-crown_new r t log xs vacant g i e found =
    let (led, by, same) = g i e found in
    elim (Bool-cases (e.term == t)) [
      | inl this ↦
          absurd
            (let no : some led ≡ none = sym by ∙ ap r ((==_iff e.term t).0 this) ∙ vacant in cc)
      | inr other ↦ (led, rw other by, same)
    ]

-- A leader's log gets one more entry.
pub Grounded-crown_more :
    (r : Reigns) (t : ℕ) (log : List LogEntry) (new : LogEntry) (xs : List LogEntry)
    → r t ≡ some log
    → Grounded r xs
    → Grounded (crown t (log ++ new ∷ []) r) xs
Grounded-crown_more r t log new xs led_by g i e found =
    let (led, by, same) = g i e found in
    elim (Bool-cases (e.term == t)) [
      | inl this ↦
          let one : led ≡ log = some-inj (sym by ∙ ap r ((==_iff e.term t).0 this) ∙ led_by) in
          let cut : take (suc i) xs ≡ take (suc i) log = same ∙ ap (take (suc i)) one in
          let long : suc i ≤ length log = omega (
            arith,
            ap (length {A = LogEntry}) cut,
            length-take (suc i) xs,
            length-take (suc i) log,
            get_elem?-lt xs i e found,
          ) in
          (log ++ new ∷ [], rw this refl, cut ∙ sym (take-append_le (suc i) log (new ∷ []) long))
      | inr other ↦ (led, rw other by, same)
    ]

pub get-append_le :
    (k : ℕ) (xs ys : List LogEntry) → k < length xs → get_elem? (xs ++ ys) k ≡ get_elem? xs k
get-append_le k [] ys h = absurd (omega (arith, h))
get-append_le zero (x ∷ xs) ys h = refl
get-append_le (suc k) (x ∷ xs) ys h = get-append_le k xs ys (omega (arith, h))

-- That log, with the entry, is as it should be itself.
pub Grounded-snoc :
    (r : Reigns) (t : ℕ) (log : List LogEntry) (new : LogEntry)
    → r t ≡ some log
    → Grounded r log
    → new.term ≡ t
    → Grounded (crown t (log ++ new ∷ []) r) (log ++ new ∷ [])
Grounded-snoc r t log new led_by g term i e found = elim (Bool-cases (ltb i (length log))) [
  | inl old ↦
      let within = ltb→lt _ _ old in
      let (led, by, same) =
        Grounded-crown_more r t log new log led_by g i e
          (sym (get-append_le i log (new ∷ []) within) ∙ found) in
      (led, by, take-append_le (suc i) log (new ∷ []) (omega (arith, within)) ∙ same)
  | inr at_end ↦
      let short = get_elem?-lt (log ++ new ∷ []) i e found in
      let last : i ≡ length log =
        omega (arith, not-ltb→le _ _ at_end, short, length-append log (new ∷ [])) in
      let this : e ≡ new =
        some-inj (
          sym found ∙ ap (get_elem? (log ++ new ∷ [])) last ∙ snoc-get (length log) log new refl) in
      let at_t : (e.term == t) ≡ true =
        (==_iff e.term t).1 (ap (λ (x : LogEntry). x.term) this ∙ term) in
      (log ++ new ∷ [], rw at_t refl, refl)
]

pub take-get_some :
    (k i : ℕ) (xs : List LogEntry) (e : LogEntry)
    → get_elem? (take k xs) i ≡ some e
    → (get_elem? xs i ≡ some e) × (i < k)
take-get_some k i xs e h =
    let short : i < k = omega (arith, get_elem?-lt (take k xs) i e h, length-take k xs) in
    (sym (get-take k i xs short) ∙ h, short)

pub Grounded-take :
    (r : Reigns) (k : ℕ) (xs : List LogEntry) → Grounded r xs → Grounded r (take k xs)
Grounded-take r k xs g i e found =
    let (in_xs, short) = take-get_some k i xs e found in
    let (led, by, same) = g i e in_xs in
    (led, by, take-take (suc i) k xs (omega (arith, short)) ∙ same)
