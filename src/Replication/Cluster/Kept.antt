-- ===== src/Replication/Cluster/Kept.antt =====
-- The ledger's invariant over a change.
use wal_distributed_rs.Common.{
  ◌^◌, length, ℕ, ◌+◌, ◌≤◌, ◌<◌, ◌≡◌, inl, inr, sym, ap, ◌∙◌, none, some, List, arith, leb, leb→le,
  not-leb→lt, Bool-cases,
}
use mathlib.Core.Path.{subst}
use wal_distributed_rs.Replication.Config.{NodeId}
use wal_distributed_rs.Replication.Log.Record.{LogEntry, Memory}
use wal_distributed_rs.Replication.Cluster.Reigns.{Grounded}
use wal_distributed_rs.Replication.Cluster.Prefix.{Prefix, Prefix-trans}
use wal_distributed_rs.Replication.Cluster.Ledger.{In, Vote, Ack, Ledger, node_of, Majority}
use wal_distributed_rs.Replication.Cluster.Change.{plain, Clear, HasReign, Backs, IsKept, Change}

module _ (members : List NodeId) (l l' : Ledger) (h : IsKept members l) (ch : Change members l l')
    (plain_nodes : (x : NodeId) → (node_of l x).log.memory ≡ plain (node_of l x).log.memory.entries)
    (short : (x : NodeId) → length (node_of l x).log.memory.entries < 2 ^ 64)
    (grounded : (x : NodeId) → Grounded l.base.reigns (node_of l x).log.memory.entries) where
  later : (t : ℕ) (b : List LogEntry) → HasReign l.base.reigns t b → HasReign l'.base.reigns t b
  later t b (led, by, first) =
      let (led', by', more) = ch.reigns_stay t led by in
      (led', by', Prefix-trans b led led' first more)

  Clear-before :
      (b : List LogEntry) (t m m' : ℕ) → m ≤ m' → Clear l'.births b t m' → Clear l.births b t m
  Clear-before b t m m' le clear w log above within born =
      clear w log above (omega (arith, le, within)) (ch.births_stay w log born)

  backed :
      (t : ℕ) (log : List LogEntry)
      → Majority members (Backs l.votes t log)
      → Majority members (Backs l'.votes t log)
  backed t log m = record {
    who = m.who;
    many = m.many;
    each = λ x yes.
        let (v, in_votes, voter, term, index, last) = m.each x yes in
        (v, ch.votes_stay v in_votes, voter, term, index, last);
  }

  ack_kept' :
      (a : Ack) (b : List LogEntry)
      → In a l'.acks
      → Prefix b a.log
      → Clear l'.births b a.term (node_of l' a.node).ps.current_term
      → Prefix b (node_of l' a.node).log.memory.entries
  ack_kept' a b in_acks part clear = elim (ch.new_acks a in_acks) [
    | inr (_, _, has, _, _) ↦ Prefix-trans b a.log (node_of l' a.node).log.memory.entries part has
    | inl old ↦
        let (led, by, first) = h.ack_reign a old in
        ch.logs a.node b a.term (h.ack_term a old) (led, by, Prefix-trans b a.log led part first)
          clear
          (h.ack_kept a b old part (
            Clear-before b a.term (node_of l a.node).ps.current_term
              (node_of l' a.node).ps.current_term (ch.terms a.node) clear))
  ]

  -- No leader had won the term of a new vote.
  Clear-vote :
      (v : Vote) (b : List LogEntry) (t m k : ℕ)
      → l.base.reigns v.request.term ≡ none
      → v.request.term ≡ m + 1
      → k ≤ v.request.term
      → Clear l'.births b t m
      → Clear l.births b t k
  Clear-vote v b t m k vacant next le clear w log above within born = elim (Bool-cases (leb w m)) [
    | inl below ↦ clear w log above (leb→le _ _ below) (ch.births_stay w log born)
    | inr at ↦ absurd (
        let here : w ≡ v.request.term = omega (arith, not-leb→lt _ _ at, within, le, next) in
        let (led, by, _) = h.birth_reign w log born in
        let no : some led ≡ none = sym by ∙ ap l.base.reigns here ∙ vacant in cc)
  ]

  vote_kept' :
      (v : Vote) (a : Ack) (b : List LogEntry) (m : ℕ)
      → In v l'.votes
      → In a l'.acks
      → a.node ≡ v.voter
      → a.term < v.request.term
      → Prefix b a.log
      → v.request.term ≡ m + 1
      → Clear l'.births b a.term m
      → Prefix b v.memory.entries
  vote_kept' v a b m in_votes in_acks same lt part next clear = elim (ch.new_votes v in_votes) [
    | inr (vacant, from, to, memory, _, no_acks) ↦
        let old = no_acks a in_acks in
        let k = (node_of l a.node).ps.current_term in
        let now : k ≤ v.request.term =
          subst (λ x. (node_of l x).ps.current_term ≤ v.request.term) (sym same) from in
        subst (Prefix b)
          (ap (λ x. (node_of l x).log.memory.entries) same
            ∙ sym (ap (λ (y : Memory). y.entries) memory))
          (h.ack_kept a b old part (Clear-vote v b a.term m k vacant next now clear))
    | inl old_vote ↦ elim (ch.new_acks a in_acks) [
      | inl old ↦
          h.vote_kept v a b m old_vote old same lt part next
            (Clear-before b a.term m m (omega arith) clear)
      | inr (from, _, _, _, _) ↦ absurd (
          let voted : v.request.term ≤ (node_of l a.node).ps.current_term =
            subst (λ x. v.request.term ≤ (node_of l x).ps.current_term) (sym same)
              (h.vote_term v old_vote) in
          omega (arith, from, lt, voted))
    ]
  ]

  pub Change-IsKept : IsKept members l'
  Change-IsKept = record {
    birth_reign = λ t log born. elim (ch.new_births t log born) [
      | inl old ↦ later t log (h.birth_reign t log old)
      | inr (reign, _, _) ↦ reign
    ];
    birth_below = λ t log born. elim (ch.new_births t log born) [
      | inl old ↦ h.birth_below t log old
      | inr (_, below, _) ↦ below
    ];
    birth_backed = λ t log born. elim (ch.new_births t log born) [
      | inl old ↦ backed t log (h.birth_backed t log old)
      | inr (_, _, votes) ↦ votes
    ];
    born = λ t led by. elim (ch.new_reigns t led by) [
      | inl (old, was) ↦ let (log, born) = h.born t old was in (log, ch.births_stay t log born)
      | inr new ↦ new
    ];
    ack_reign = λ a in_acks. elim (ch.new_acks a in_acks) [
      | inl old ↦ later a.term a.log (h.ack_reign a old)
      | inr (_, _, _, reign, _) ↦ reign
    ];
    ack_term = λ a in_acks. elim (ch.new_acks a in_acks) [
      | inl old ↦ omega (arith, h.ack_term a old, ch.terms a.node)
      | inr (_, to, _, _, _) ↦ omega (arith, to)
    ];
    ack_kept = ack_kept';
    vote_term = λ v in_votes. elim (ch.new_votes v in_votes) [
      | inl old ↦ omega (arith, h.vote_term v old, ch.terms v.voter)
      | inr (_, _, to, _, _, _) ↦ to
    ];
    vote_plain = λ v in_votes. elim (ch.new_votes v in_votes) [
      | inl old ↦ h.vote_plain v old
      | inr (_, _, _, memory, _, _) ↦
          memory ∙ plain_nodes v.voter ∙ ap (λ (y : Memory). plain y.entries) (sym memory)
    ];
    vote_short = λ v in_votes. elim (ch.new_votes v in_votes) [
      | inl old ↦ h.vote_short v old
      | inr (_, _, _, memory, _, _) ↦
          subst (λ (y : Memory). length y.entries < 2 ^ 64) (sym memory) (short v.voter)
    ];
    vote_grounded = λ v in_votes. elim (ch.new_votes v in_votes) [
      | inl old ↦ ch.grounded_stay _ (h.vote_grounded v old)
      | inr (_, _, _, memory, _, _) ↦
          ch.grounded_stay _ (
            subst (λ (y : Memory). Grounded l.base.reigns y.entries) (sym memory)
              (grounded v.voter))
    ];
    vote_fresh = λ v in_votes. elim (ch.new_votes v in_votes) [
      | inl old ↦ h.vote_fresh v old
      | inr (_, _, _, _, fresh, _) ↦ fresh
    ];
    vote_kept = vote_kept';
  }
