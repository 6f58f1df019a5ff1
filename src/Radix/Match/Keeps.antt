-- ===== src/Radix/Match/Keeps.antt =====
-- `match_prefix` cuts nodes, and leaves what is cached as it was.
use kvslab.Base.{ℕ, ◌+◌, ◌*◌, ◌≡◌, refl, List, [], ◌++◌, arith, drop}
use kvslab.Radix.State.{Children, end, child, Tree, common, tick}
use kvslab.Radix.Entries.{entries, entries-split_node}
use kvslab.Radix.Evict.{num_entries}
use kvslab.Radix.State.{split_node}
use kvslab.Radix.Match.Induction.{match_walk-ind}
use kvslab.Radix.Match.{stop, end_inside, go_through, match_walk, match_prefix}

match_walk-entries :
    (bt fresh : ℕ) (kids : Children) (path ts : List ℕ) (clock : ℕ)
    → entries bt path (match_walk bt fresh kids ts clock).children ≡ entries bt path kids
unfolding match_walk stop entries end_inside go_through
match_walk-entries bt fresh end path ts clock = refl
match_walk-entries bt fresh (child key n below rest) path ts clock =
    let c = common bt n ts in
    ground (
      arith,
      entries-split_node bt c fresh (tick clock) path key n below rest,
      match_walk-entries bt fresh below (path ++ n.tokens) (drop (c * bt) ts) (tick clock),
      match_walk-entries bt fresh rest path ts clock,
    )

-- As many splits are counted as there are nodes more.
match_walk-num_entries :
    (bt fresh : ℕ) (kids : Children) (ts : List ℕ) (clock : ℕ)
    → let w = match_walk bt fresh kids ts clock in
      num_entries w.children ≡ num_entries kids + w.splits
unfolding stop end_inside go_through split_node num_entries
match_walk-num_entries bt fresh =
    match_walk-ind bt fresh
      (λ kids ts clock w. num_entries w.children ≡ num_entries kids + w.splits)
      (λ kids ts clock. omega arith) (λ key n below rest ts clock e some_c less. omega arith)
      (λ key n below rest ts clock w h. omega (arith, h))
      (λ key n below rest ts clock w h. omega (arith, h))

-- `match_prefix` leaves every cached run of whole blocks cached, in the same block, and adds none. It
-- adds as many to `num_nodes` as there are nodes more in the tree.
pub match_prefix-entries :
    (t : Tree) (ts : List ℕ)
    → let q = (match_prefix t ts).1 in
      (entries t.block_tokens [] q.children ≡ entries t.block_tokens [] t.children)
      × (q.num_nodes + num_entries t.children ≡ t.num_nodes + num_entries q.children)
unfolding match_prefix
match_prefix-entries t ts = (
  match_walk-entries t.block_tokens t.next_ptr t.children [] ts t.clock,
  omega (arith, match_walk-num_entries t.block_tokens t.next_ptr t.children ts t.clock),
)
