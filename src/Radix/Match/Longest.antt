-- ===== src/Radix/Match/Longest.antt =====
-- What `match_prefix` returns is the longest cached prefix.
use kvslab.Base.{
  ℕ, suc, ◌-◌, ◌*◌, ◌≤◌, ◌<◌, ◌≡◌, sym, ap, ◌∙◌, inl, inr, true, false, List, [], ◌++◌, arith, ltb,
  ◌==◌, if◌then◌else◌, Bool-cases, length, take, drop, length-take, length-drop,
}
use mathlib.Core.Path.{subst}
use kvslab.Types.{block_key}
use kvslab.Radix.State.{Children, end, child, Tree, first_key, common, tick}
use kvslab.Radix.Entries.{Entry, AllIn, entries, expand, In, Aligned}
use kvslab.Radix.WellFormed.{Keyed}
use kvslab.Radix.Match.{stop, end_inside, go_through, match_walk, match_prefix, MatchResult}
use kvslab.Radix.Insert.Limit.{mul-le}
use kvslab.Radix.Match.Found.{match_prefix-Found}
use kvslab.Radix.Match.Keeps.{match_prefix-entries}
use kvslab.Radix.Match.Runs.{
  append-cancel, Own, entries-cases, take-front, starts_at_node, entries-Starts, ends_here,
  ends_below,
}

-- A match of `ts` in the map takes all of its first `m` tokens that are cached behind `path`.
abbrev Covers : ℕ → List ℕ → Children → List ℕ → ℕ → Type 0
Covers bt path kids ts tokens =
    (m b : ℕ) → m ≤ length ts → In (path ++ take m ts, b) (entries bt path kids) → m ≤ tokens

-- A cached prefix behind an entry of another key is not in that entry, and the other way round.
prefix_key :
    (bt m : ℕ) (path x ts : List ℕ)
    → path ++ take m ts ≡ path ++ x
    → bt ≤ length x
    → m ≤ length ts
    → (bt ≤ length ts) × (take bt x ≡ take bt ts)
prefix_key bt m path x ts e long le =
    let same = append-cancel path (take m ts) x e in
    let len : length x ≤ m = omega (arith, ap (length {A = ℕ}) same, length-take m ts) in
    (
      omega (arith, len, long, le),
      ap (take bt) (sym same) ∙ take-front bt m ts (omega (arith, len, long)),
    )

match_walk-Covers :
    (bt fresh : ℕ) (path : List ℕ) (kids : Children) (ts : List ℕ) (clock : ℕ)
    → 0 < bt
    → Aligned bt kids
    → Keyed bt kids
    → Covers bt path kids ts (match_walk bt fresh kids ts clock).tokens
unfolding match_walk stop end_inside go_through entries first_key
match_walk-Covers bt fresh path end ts clock some_tokens a kd m b le h = absurd h
match_walk-Covers bt fresh path (child key n below rest) ts clock some_tokens
      (a, some_block, al, ar) (kd, absent, kl, kr) m b le h =
    let c = common bt n ts in
    let e : Entry = (path ++ take m ts, b) in
    let deeper =
      match_walk-Covers bt fresh (path ++ n.tokens) below (drop (c * bt) ts) (tick clock)
        some_tokens al kl in
    let beside = match_walk-Covers bt fresh path rest ts clock some_tokens ar kr m b le in
    let (x, run, long, front) =
      entries-Starts bt path (child key n below rest) e (a, some_block, al, ar) (kd, absent, kl, kr)
        h in
    let (enough, block) = prefix_key bt m path x ts run long le in
    let not_short : ltb (length ts) bt ≡ false = ground (arith, enough) in
    elim (entries-cases bt key path n below rest e h) [
      | inr there ↦
          let (y, run2, long2, other) = entries-Starts bt path rest e ar kr there in
          let (enough2, block2) = prefix_key bt m path y ts run2 long2 le in
          let differ : (key == first_key bt ts) ≡ false =
            ground (arith, other key absent, ap block_key block2) in
          rw (not_short, differ) (beside there)
      | inl own ↦
          let (y, run2, long2, first) =
            starts_at_node bt path n below e a some_block
              (λ g.
                let (z, run3, w, v) = entries-Starts bt (path ++ n.tokens) below e al kl g in
                (z, run3))
              own in
          let (enough2, block2) = prefix_key bt m path y ts run2 long2 le in
          let same : (key == first_key bt ts) ≡ true =
            ground (arith, kd, ap block_key (sym first ∙ block2)) in
          rw (not_short, same) (by_place own deeper)
    ]
  where
    by_place :
        Own bt path n below (path ++ take m ts, b)
        → Covers bt
            (path ++ n.tokens)
            below
            (drop (common bt n ts * bt) ts)
            (match_walk bt fresh below (drop (common bt n ts * bt) ts) (tick clock)).tokens
        → m
          ≤ (if common bt n ts == 0
              then stop (child key n below rest) clock
              else if ltb (common bt n ts) (length n.blocks)
              then end_inside bt (common bt n ts) fresh n below rest clock
              else go_through bt key n rest clock
                  (match_walk bt fresh below (drop (common bt n ts * bt) ts) (tick clock))).tokens
    by_place (inl (k, lt, run)) deeper =
        let (len, ge) = ends_here bt path n below ts some_tokens a m k le lt run in
        let fits = mul-le (suc k) (common bt n ts) bt ge in
        let found : (common bt n ts == 0) ≡ false = ground (arith, ge) in
        elim (Bool-cases (ltb (common bt n ts) (length n.blocks))) [
          | inl inside ↦ rw (found, inside) (omega (arith, len, fits))
          | inr whole ↦
              let most = mul-le (suc k) (length n.blocks) bt (omega arith) in
              rw (found, whole) (omega (arith, len, most))
        ]
    by_place (inr h2) deeper =
        let (z, run, w, v) =
          entries-Starts bt (path ++ n.tokens) below (path ++ take m ts, b) al kl h2 in
        let (all, long, cut) = ends_below bt path n below ts some_tokens a m z le run in
        let found : (common bt n ts == 0) ≡ false = ground (arith, all, some_block) in
        let whole : ltb (common bt n ts) (length n.blocks) ≡ false = ground (arith, all) in
        let left = length-drop (common bt n ts * bt) ts in
        let there =
          deeper (m - length n.blocks * bt) b
            (omega (arith, le, left, long, ap (λ (j : ℕ). j * bt) all))
            (subst (λ (r : List ℕ). In (r, b) (entries bt (path ++ n.tokens) below)) cut h2) in
        rw (found, whole) (omega (arith, there, long))

-- What a cache of the entries `es` promises for the tokens `ts`: the blocks are cached for these very
-- tokens, and no longer prefix of them is cached.
pub record IsLongest (bt : ℕ) (es : List Entry) (ts : List ℕ) (r : MatchResult) : Type 0 where
  pub cached : AllIn (expand bt [] ts r.blocks) es
  pub as_many : r.num_tokens ≡ length r.blocks * bt
  pub within : r.num_tokens ≤ length ts
  pub longest : (m b : ℕ) → m ≤ length ts → In (take m ts, b) es → m ≤ r.num_tokens

-- With at least one token to a block, and on a tree whose nodes hold whole blocks and stand under the
-- hashes of their first blocks, `match_prefix` looks up the longest cached prefix among the entries of
-- the tree, however it is cut into nodes, and the tree that it leaves has the same entries.
pub match_prefix-IsLongest :
    (t : Tree) (ts : List ℕ)
    → 0 < t.block_tokens
    → Aligned t.block_tokens t.children
    → Keyed t.block_tokens t.children
    → let (r, u) = match_prefix t ts in
      IsLongest t.block_tokens (entries t.block_tokens [] t.children) ts r
      × (entries t.block_tokens [] u.children ≡ entries t.block_tokens [] t.children)
unfolding match_prefix
match_prefix-IsLongest t ts some_tokens a kd =
    let (found, as_many, within) = match_prefix-Found t ts a in
    (
      record {
        cached = found;
        as_many = as_many;
        within = within;
        longest =
            match_walk-Covers t.block_tokens t.next_ptr [] t.children ts t.clock some_tokens a kd;
      },
      (match_prefix-entries t ts).0,
    )
