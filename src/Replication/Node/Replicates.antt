-- ===== src/Replication/Node/Replicates.antt =====
-- One exchange of AppendEntries: leader and follower agree on the entries that were sent.
use wal_distributed_rs.Replication.Node.Requests.{
  build_append_entries_for-Follows, Follows-entries_from,
}
use wal_distributed_rs.Replication.Log.Entries.{get-drop, get-take}
use wal_distributed_rs.Common.{
  filter-cons_no, inr, inl, Option-cases, Bool-cases, length-drop, leb, filter, ◌-◌, arith, ap, ◌≤◌,
  take, drop, ◌≡◌, some, ◌+◌, ◌<◌, get_elem?, ℕ, List, Option,
}
use Prim.Native.Nat.{zero, suc}
use wal_distributed_rs.Common.{
  ℕ, ◌+◌, ◌-◌, ◌≤◌, ◌<◌, ◌≡◌, ◌∙◌, refl, sym, ap, Bool, true, false, ◌||◌, ◌==◌, Option, none, some,
  List, [], ◌∷◌, get_elem?, drop, take, filter, filter-cons_yes, length, arith, leb, ltb, le→leb,
  add64, max,
}
use wal_distributed_rs.WalCore.Entry.{Crc}
use wal_distributed_rs.Replication.Config.{NodeId}
use wal_distributed_rs.Replication.Log.{term_at, last_index, entries_from}
use wal_distributed_rs.Replication.Log.Record.{LogEntry, Memory}
use wal_distributed_rs.Replication.Log.Replay.{Follows, IsLog}
use wal_distributed_rs.Replication.Log.Terms.{get_elem?-lt, get_elem?-none}
use wal_distributed_rs.Replication.Node.{RaftNode}
use wal_distributed_rs.Replication.Node.Accepted.{on_append_entries-Takes}
use wal_distributed_rs.Replication.Node.Commits.{}
use wal_distributed_rs.Replication.Node.Follower.{follow, on_append_entries}
use wal_distributed_rs.Replication.Node.Leader.{build_append_entries_for, next_for}
use wal_distributed_rs.Replication.Node.Matching.{entries_ok}
use wal_distributed_rs.Replication.Node.Taken.{Takes, terms}

-- The term of the entry at a place of a list.
abbrev term_of : Option LogEntry → Option ℕ
term_of none = none
term_of (some e) = some e.term

get-terms : (es : List LogEntry) (j : ℕ) → get_elem? (terms es) j ≡ term_of (get_elem? es j)
get-terms [] j = refl
get-terms (e ∷ es) zero = refl
get-terms (e ∷ es) (suc j) = get-terms es j

-- The term at an index behind the snapshot.
term_at-get :
    (m : Memory) (i : ℕ)
    → m.snapshot_index < i
    → term_at m i ≡ term_of (get_elem? m.entries (i - m.snapshot_index - 1))
unfolding term_at
term_at-get m i above = ground (arith, above)

-- The entries up to an index are the first ones.
filter-get :
    (up s j : ℕ) (es : List LogEntry)
    → Follows s es
    → s + j + 1 ≤ up
    → get_elem? (filter (λ e. leb e.index up) es) j ≡ get_elem? es j
filter-get up s j [] f h = refl
filter-get up s zero (e ∷ es) f h =
    rw (filter-cons_yes (λ e. leb e.index up) e es (le→leb _ _ (omega (arith, f.0, h)))) refl
filter-get up s (suc j) (e ∷ es) f h =
    rw (filter-cons_yes (λ e. leb e.index up) e es (le→leb _ _ (omega (arith, f.0, h))))
      (filter-get up (s + 1) j es f.2 (omega (arith, h)))

-- What the request has at a place, the leader has at the index.
entries_from-get :
    (m : Memory) (start j : ℕ)
    → IsLog m
    → m.snapshot_index < start
    → start + j ≤ m.snapshot_index + length m.entries
    → get_elem? (entries_from m start) j ≡ get_elem? m.entries (start - m.snapshot_index - 1 + j)
unfolding entries_from last_index
entries_from-get m start j log above within =
    let from : max start (add64 m.snapshot_index 1) ≡ start = omega (arith, log.bound, above) in
    let inside : (start == 0 || ltb (add64 m.snapshot_index (length m.entries)) start) ≡ false =
      ground (arith, log.bound, above, within) in
    rw (entries_from, from) (rw inside (get-drop (start - m.snapshot_index - 1) j m.entries))

entries_from-length :
    (m : Memory) (start : ℕ)
    → IsLog m
    → m.snapshot_index < start
    → start ≤ m.snapshot_index + length m.entries
    → start + length (entries_from m start) ≡ m.snapshot_index + length m.entries + 1
unfolding entries_from last_index
entries_from-length m start log above within =
    let from : max start (add64 m.snapshot_index 1) ≡ start = omega (arith, log.bound, above) in
    let inside : (start == 0 || ltb (add64 m.snapshot_index (length m.entries)) start) ≡ false =
      ground (arith, log.bound, above, within) in
    rw (entries_from, from)
      (rw inside
        (omega (arith, above, within, length-drop (start - m.snapshot_index - 1) m.entries)))

filter-length : (p : LogEntry → Bool) (es : List LogEntry) → length (filter p es) ≤ length es
filter-length p [] = omega arith
filter-length p (e ∷ es) = elim (Bool-cases (p e)) [
  | inl wanted ↦ rw (filter-cons_yes p e es wanted) (omega (arith, filter-length p es))
  | inr more ↦ rw (filter-cons_no p e es more) (omega (arith, filter-length p es))
]

-- The terms of the entries that were taken.
taken-get :
    (k j : ℕ) (es : List LogEntry) (m m' : Memory) (x : LogEntry)
    → Takes k es m m'
    → get_elem? es j ≡ some x
    → term_of (get_elem? m'.entries (k + j)) ≡ some x.term
taken-get k j es m m' x t found =
    let part = take (length es) (drop k m'.entries) in
    ap term_of (
      sym (get-drop k j m'.entries)
      ∙ sym (get-take (length es) j (drop k m'.entries) (get_elem?-lt es j x found)))
    ∙ sym (get-terms part j)
    ∙ ap (λ ts. get_elem? ts j) t.taken
    ∙ get-terms es j
    ∙ ap term_of found

found_at : (es : List LogEntry) (k : ℕ) → k < length es → (x : LogEntry) × (get_elem? es k ≡ some x)
found_at es k h = elim (Option-cases (get_elem? es k)) [
  | inl missing ↦ absurd (omega (arith, h, get_elem?-none es k missing))
  | inr found ↦ found
]

module _ ⦃c : Crc⦄ where
  -- An exchange of AppendEntries that succeeds, between a leader and a follower whose logs have
  -- contiguous indices, from an entry that is behind the leader's snapshot and not before the
  -- follower's, with no failing operation of the follower's log, leaves the follower with the
  -- leader's term at every index that was to be sent.
  pub exchange-agrees :
      (id : NodeId) (up_to : ℕ) (l f : RaftNode) (i : ℕ)
      → IsLog l.log.memory
      → IsLog f.log.memory
      → l.log.memory.snapshot_index < next_for id up_to l
      → f.log.memory.snapshot_index < next_for id up_to l
      → (on_append_entries (build_append_entries_for id up_to l) f).0.success ≡ true
      → entries_ok (build_append_entries_for id up_to l).entries (follow l.ps.current_term l.id f)
        ≡ true
      → next_for id up_to l ≤ i
      → i ≤ up_to
      → i ≤ last_index l.log.memory
      → term_at (on_append_entries (build_append_entries_for id up_to l) f).1.log.memory i
        ≡ term_at l.log.memory i
  unfolding last_index build_append_entries_for
  exchange-agrees id up_to l f i l_log f_log l_next f_next accepted works from to within =
      let req = build_append_entries_for id up_to l in
      let m = l.log.memory in
      let next = next_for id up_to l in
      let j = i - next in
      let k = req.prev_log_index - f.log.memory.snapshot_index in
      let t : Takes k req.entries f.log.memory (on_append_entries req f).1.log.memory =
        on_append_entries-Takes req f accepted f_log (omega (arith, f_next))
          (build_append_entries_for-Follows id up_to l l_log l_next).0
          (omega (
            arith,
            f_next,
            l_log.bound,
            from,
            within,
            filter-length (λ e. leb e.index up_to) (entries_from m next),
            entries_from-length m next l_log l_next (omega (arith, l_log.bound, from, within)),
          ))
          works in
      let sent : get_elem? req.entries j ≡ get_elem? m.entries (i - m.snapshot_index - 1) =
        filter-get up_to (next - 1) j (entries_from m next)
          (Follows-entries_from m next l_log l_next) (omega (arith, from, to, l_next))
        ∙ entries_from-get m next j l_log l_next (omega (arith, l_log.bound, from, within))
        ∙ ap (λ a. get_elem? m.entries a) (omega (arith, from, l_next)) in
      let (x, found) =
        found_at m.entries (i - m.snapshot_index - 1)
          (omega (arith, l_log.bound, from, within, l_next)) in
      let m' = (on_append_entries req f).1.log.memory in
      term_at-get m' i (omega (arith, t.snapshot_index, f_next, from))
      ∙ ap (λ a. term_of (get_elem? m'.entries a)) (omega (arith, t.snapshot_index, f_next, from))
      ∙ taken-get k j req.entries f.log.memory m' x t (sent ∙ found)
      ∙ sym (term_at-get m i (omega (arith, l_next, from)) ∙ ap term_of found)
