-- ===== src/Replication/Cluster/Completeness.antt =====
-- What more than half of the members have acknowledged is in the log of every later leader.
use wal_distributed_rs.Common.{
  ℕ, ◌+◌, ◌-◌, ◌^◌, ◌≤◌, ◌<◌, ◌≡◌, ◌⊎◌, inl, inr, refl, sym, ap, ◌∙◌, some, List, [], ◌∷◌, arith,
  length, get_elem?, last?, ltb, ltb→lt, not-ltb→le, Bool-cases, zero, suc,
}
use mathlib.Core.Path.{subst}
use wal_distributed_rs.Replication.Config.{NodeId}
use wal_distributed_rs.Replication.Log.{last_index, last_term}
use wal_distributed_rs.Replication.Log.Record.{LogEntry}
use wal_distributed_rs.Replication.Log.Terms.{get_elem?-lt}
use wal_distributed_rs.Replication.Log.Entries.{get-take}
use wal_distributed_rs.Replication.Node.Votes.{UpToDate}
use wal_distributed_rs.Replication.Cluster.Counts.{counts_overlap}
use wal_distributed_rs.Replication.Cluster.Reigns.{Grounded, Grounded-take, some-inj}
use wal_distributed_rs.Replication.Cluster.Requests.{found_at}
use wal_distributed_rs.Replication.Cluster.Prefix.{
  Prefix, Prefix-le, Prefix-get, Prefix-same, Prefix-trans, Prefix-Upto, Upto, Grounded-Upto,
}
use wal_distributed_rs.Replication.Cluster.Ledger.{In, Ack, Ledger, Majority}
use wal_distributed_rs.Replication.Cluster.Change.{plain, IsKept}

-- Entries of which the last is of the term, and that more than half of the members had in their
-- logs in that term, and said so.
pub record Chosen (members : List NodeId) (l : Ledger) (term : ℕ) (log : List LogEntry)
    : Type 0 where
  pub last : LogEntry
  pub at_end : get_elem? log (length log - 1) ≡ some last
  pub of_term : last.term ≡ term
  pub acked :
      Majority members
        (λ x. (a : Ack) × In a l.acks × (a.node ≡ x) × (a.term ≡ term) × Prefix log a.log)

last-get : (xs : List LogEntry) → last? xs ≡ get_elem? xs (length xs - 1)
last-get [] = refl
last-get (x ∷ []) = refl
last-get (x ∷ y ∷ r) =
    let place : suc (length (y ∷ r) - 1) ≡ length (x ∷ y ∷ r) - 1 = omega arith in
    last-get (y ∷ r) ∙ ap (get_elem? (x ∷ y ∷ r)) place

last_term-plain :
    (xs : List LogEntry) (e : LogEntry)
    → get_elem? xs (length xs - 1) ≡ some e
    → last_term (plain xs) ≡ e.term
unfolding last_term
last_term-plain xs e h = rw (last-get xs ∙ h) refl

-- The candidate's log is as up to date as a voter's that is not empty: then it is not empty itself,
-- and has a last entry of a higher term, or one of the same term and is no shorter.
ahead :
    (xs cs : List LogEntry) (x : LogEntry)
    → get_elem? xs (length xs - 1) ≡ some x
    → length xs < 2 ^ 64
    → (last_term (plain xs) < last_term (plain cs))
      ⊎ ((last_term (plain cs) ≡ last_term (plain xs))
          × (last_index (plain xs) ≤ last_index (plain cs)))
    → (e : LogEntry) × (get_elem? cs (length cs - 1) ≡ some e)
      × (0 < length cs)
      × ((x.term < e.term) ⊎ ((e.term ≡ x.term) × (length xs ≤ length cs)))
unfolding last_index
ahead xs [] x at short (inl higher) = absurd (unfold last_term in omega (arith, higher))
ahead xs [] x at short (inr (_, longer)) =
    absurd (omega (arith, longer, short, get_elem?-lt xs _ x at))
ahead xs (c ∷ cs) x at short fresh =
    let (e, found) = found_at (c ∷ cs) (length (c ∷ cs) - 1) (omega arith) in
    let term = last_term-plain (c ∷ cs) e found in
    let term' = last_term-plain xs x at in
    (
      e,
      found,
      omega arith,
      elim fresh [
        | inl higher ↦ inl (omega (arith, higher, term, term'))
        | inr (same, longer) ↦ inr (sym term ∙ same ∙ term', omega (arith, longer, short))
      ],
    )

module _ (members : List NodeId) (l : Ledger) (h : IsKept members l)
    (ruled : (t : ℕ) (led : List LogEntry)
      → l.base.reigns t ≡ some led
      → Grounded l.base.reigns led)
    (upto : (t : ℕ) (led : List LogEntry) → l.base.reigns t ≡ some led → Upto t led) (t : ℕ)
    (a : List LogEntry) (chosen : Chosen members l t a) where
  some_entry : 0 < length a
  some_entry = omega (arith, get_elem?-lt a _ chosen.last chosen.at_end)

  birth-Grounded :
      (u : ℕ) (log : List LogEntry) → l.births u ≡ some log → Grounded l.base.reigns log
  birth-Grounded u log born =
      let (led, by, first) = h.birth_reign u log born in
      subst (Grounded l.base.reigns) first
        (Grounded-take l.base.reigns (length log) led (ruled u led by))

  -- A log that has the entries and is the voter's, and one that is ahead of it.
  ahead-Prefix :
      (u : ℕ) (xs cs : List LogEntry) (x e : LogEntry)
      → Grounded l.base.reigns xs
      → Prefix a xs
      → get_elem? xs (length xs - 1) ≡ some x
      → Grounded l.base.reigns cs
      → get_elem? cs (length cs - 1) ≡ some e
      → e.term < u
      → Upto t a
      → ((w : ℕ) (log : List LogEntry) → t < w → w < u → l.births w ≡ some log → Prefix a log)
      → (x.term < e.term) ⊎ ((e.term ≡ x.term) × (length xs ≤ length cs))
      → Prefix a cs
  ahead-Prefix u xs cs x e gx part at gc at' below upto_a earlier (inr (same, longer)) =
      let (led, by, like) = gx (length xs - 1) x at in
      let (led', by', like') = gc (length cs - 1) e at' in
      let one : led ≡ led' = some-inj (sym by ∙ ap l.base.reigns (sym same) ∙ by') in
      let le = Prefix-le a xs part in
      let in_led : Prefix a led =
        Prefix-same a xs led (suc (length xs - 1)) like (omega (arith, le)) part in
      Prefix-same a led' cs (suc (length cs - 1)) (sym like') (omega (arith, le, longer))
        (subst (Prefix a) one in_led)
  ahead-Prefix u xs cs x e gx part at gc at' below upto_a earlier (inl higher) =
      let (led, by, like) = gc (length cs - 1) e at' in
      let le = Prefix-le a xs part in
      let later : t ≤ x.term = omega (
        arith,
        chosen.of_term,
        Grounded-Upto l.base.reigns xs (length xs - 1) x gx upto at (length a - 1) chosen.last
            (omega (arith, le))
            (Prefix-get a xs (length a - 1) part (omega (arith, some_entry)) ∙ chosen.at_end),
      ) in
      let (log, born) = h.born e.term led by in
      let (led', by', first) = h.birth_reign e.term log born in
      let in_led : Prefix a led = subst (Prefix a) (some-inj (sym by' ∙ by)) (
        Prefix-trans a log led' (earlier e.term log (omega (arith, later, higher)) below born)
          first) in
      let j = length cs - 1 in
      let in_led_at : get_elem? led j ≡ some e =
        sym (get-take (suc j) j led (omega arith))
        ∙ ap (λ ys. get_elem? ys j) (sym like)
        ∙ get-take (suc j) j cs (omega arith)
        ∙ at' in
      elim (Bool-cases (ltb j (length a))) [
        | inl inside ↦ absurd (
            let short : j < length a = ltb→lt j (length a) inside in
            omega (
              arith,
              later,
              higher,
              upto_a j e (sym (Prefix-get a led j in_led short) ∙ in_led_at),
            ))
        | inr behind ↦
            Prefix-same a led cs (suc j) (sym like) (omega (arith, not-ltb→le _ _ behind)) in_led
      ]

  pub later-Prefix :
      (k u : ℕ) (log : List LogEntry) → u < k → t < u → l.births u ≡ some log → Prefix a log
  later-Prefix zero u log short lt born = elim short [ ]
  later-Prefix (suc k) u log short lt born =
      let earlier : (w : ℕ) (log : List LogEntry)
          → t < w
          → w < u
          → l.births w ≡ some log
          → Prefix a log =
        λ w log above below born'. later-Prefix k w log (omega (arith, short, below)) above born' in
      let backed = h.birth_backed u log born in
      let (x, has, votes) =
        counts_overlap chosen.acked.who backed.who members
          (omega (arith, chosen.acked.many, backed.many)) in
      let (k', in_acks, node, term, part) = chosen.acked.each x has in
      let (v, in_votes, voter, vote_term, index, last) = backed.each x votes in
      let m = u - 1 in
      let next : v.request.term ≡ m + 1 = omega (arith, vote_term, lt) in
      let xs = v.memory.entries in
      let had : Prefix a xs =
        h.vote_kept v k' a m in_votes in_acks (node ∙ sym voter)
          (omega (arith, term, vote_term, lt)) part next
          (λ w log' above within born'.
            earlier w log' (omega (arith, above, term)) (omega (arith, within, lt)) born') in
      let (last_x, at) =
        found_at xs (length xs - 1) (omega (arith, some_entry, Prefix-le a xs had)) in
      let fresh : (last_term (plain xs) < last_term (plain log))
          ⊎ ((last_term (plain log) ≡ last_term (plain xs))
              × (last_index (plain xs) ≤ last_index (plain log))) =
        elim (subst (UpToDate v.request) (h.vote_plain v in_votes) (h.vote_fresh v in_votes)) [
          | inl higher ↦ inl (omega (arith, higher, last))
          | inr (same, longer) ↦ inr (sym last ∙ same, omega (arith, longer, index))
        ] in
      let (e, at', some_c, order) = ahead xs log last_x at (h.vote_short v in_votes) fresh in
      let (led, by, first) = h.ack_reign k' in_acks in
      let upto_a : Upto t a =
        Prefix-Upto a led t (Prefix-trans a k'.log led part first)
          (subst (λ i. Upto i led) term (upto k'.term led by)) in
      ahead-Prefix u xs log last_x e (h.vote_grounded v in_votes) had at (birth-Grounded u log born)
        at' (h.birth_below u log born (length log - 1) e at') upto_a earlier order
