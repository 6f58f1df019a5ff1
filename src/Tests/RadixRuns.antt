-- ===== src/Tests/RadixRuns.antt =====
-- The theorems of RadixTree at a sample tree, and runs of its operations.
use kvslab.Base.{
  ◌+◌, ◌*◌, ◌≤◌, ◌≡◌, refl, ◌⊎◌, none, some, [], ◌∷◌, arith, length, take, ok, Returns,
}
use kvslab.Radix.State.{
  Node, end, child, Tree, first_key, common, common_blocks, split_node, split_head, split_tail,
}
use kvslab.Types.{block_key}
use kvslab.Radix.Entries.{Aligned, entries, expand, AllIn}
use kvslab.Radix.Match.{stop, end_inside, go_through, match_walk, match_prefix}
use kvslab.Radix.Match.Keeps.{match_prefix-entries}
use kvslab.Pool.Inv.{Inv}
use kvslab.Tests.Samples.{one_used, one_used-Inv}
use kvslab.Radix.Evict.{
  num_entries, find_lru_leaf, scan, visit, better, eligible, no_children, is_rejected,
}
use kvslab.Radix.Evict.Oldest.{Chosen, find_lru_leaf-Chosen}
use kvslab.Radix.Pin.{has, lock, unlock}
use kvslab.Radix.Pin.Balance.{lock-unlock}
use kvslab.Radix.Insert.{insert, insert_limit}
use kvslab.Radix.Insert.Lookup.{insert-match_prefix}
use kvslab.Radix.Aligned.{match_prefix-insert-Aligned}
use kvslab.Radix.Match.Longest.{IsLongest, match_prefix-IsLongest}
use kvslab.Radix.Match.Found.{match_prefix-Found}

-- Two tokens to a block; one node of two blocks, under its key.
abbrev pub pair : Node
pair = record {
  ptr = 1;
  tokens = 5 ∷ 6 ∷ 7 ∷ 8 ∷ [];
  blocks = 3 ∷ 4 ∷ [];
  lock_count = 0;
  last_access = 1;
}

abbrev pub pair_tree : Tree
pair_tree = record {
  block_tokens = 2;
  children = child (first_key 2 (5 ∷ 6 ∷ [])) pair end end;
  root_access = 0;
  clock = 1;
  stored_blocks = 2;
  num_nodes = 1;
  collisions = 0;
  next_ptr = 2;
}

match_prefix-entries_example :
    let q = (match_prefix pair_tree (5 ∷ 6 ∷ 9 ∷ 9 ∷ [])).1 in
    (entries 2 [] q.children ≡ entries 2 [] pair_tree.children)
    × (q.num_nodes + num_entries pair_tree.children ≡ 1 + num_entries q.children)
match_prefix-entries_example = match_prefix-entries pair_tree (5 ∷ 6 ∷ 9 ∷ 9 ∷ [])

match_prefix-Found_example :
    let r = (match_prefix pair_tree (5 ∷ 6 ∷ 9 ∷ 9 ∷ [])).0 in
    AllIn (expand 2 [] (5 ∷ 6 ∷ 9 ∷ 9 ∷ []) r.blocks) (entries 2 [] pair_tree.children)
    × (r.num_tokens ≡ length r.blocks * 2)
    × (r.num_tokens ≤ 4)
match_prefix-Found_example =
    match_prefix-Found pair_tree (5 ∷ 6 ∷ 9 ∷ 9 ∷ []) (refl, omega arith, tt, tt)

match_prefix-IsLongest_example :
    let (r, u) = match_prefix pair_tree (5 ∷ 6 ∷ 9 ∷ 9 ∷ []) in
    IsLongest 2 (entries 2 [] pair_tree.children) (5 ∷ 6 ∷ 9 ∷ 9 ∷ []) r
    × (entries 2 [] u.children ≡ entries 2 [] pair_tree.children)
unfolding first_key
match_prefix-IsLongest_example =
    match_prefix-IsLongest pair_tree (5 ∷ 6 ∷ 9 ∷ 9 ∷ []) (omega arith) (refl, omega arith, tt, tt)
      (refl, tt, tt, tt)

-- A match that ends inside the node, which is split there.
split_run :
    (match_prefix pair_tree (5 ∷ 6 ∷ 9 ∷ 9 ∷ [])).0
    ≡ record { num_tokens = 2; blocks = 3 ∷ []; node = some 2 }
unfolding match_prefix match_walk stop end_inside go_through common common_blocks first_key
    split_node split_head split_tail block_key
split_run = refl

lock-unlock_example :
    Returns
      (λ q.
        (unlock q (some 1) ≡ ok pair_tree)
        × (entries 2 [] q.children ≡ entries 2 [] pair_tree.children))
      (lock pair_tree (some 1))
unfolding has
lock-unlock_example = lock-unlock pair_tree 1 (omega arith, tt, tt) refl

insert-match_prefix_example :
    let limit = insert_limit 2 (5 ∷ 6 ∷ 7 ∷ []) (0 ∷ []) in
    Returns
      (λ (stored, held, q).
        Inv held held.jobs
        × ((q.collisions ≡ 1)
            ⊎ ((q.collisions ≡ 0)
                × ((match_prefix q (take limit (5 ∷ 6 ∷ 7 ∷ []))).0.num_tokens ≡ limit))))
      (insert one_used pair_tree (5 ∷ 6 ∷ 7 ∷ []) (0 ∷ []))
insert-match_prefix_example =
    insert-match_prefix one_used pair_tree (5 ∷ 6 ∷ 7 ∷ []) (0 ∷ []) one_used-Inv (omega arith)
      (refl, omega arith, tt, tt) (omega arith) ((0, refl, omega arith), tt)

match_prefix-insert-Aligned_example :
    Aligned 2 (match_prefix pair_tree (5 ∷ 6 ∷ 9 ∷ 9 ∷ [])).1.children
    × Returns
        (λ (stored, held, q). Aligned q.block_tokens q.children)
        (insert one_used pair_tree (5 ∷ 6 ∷ 9 ∷ 9 ∷ []) (0 ∷ []))
match_prefix-insert-Aligned_example =
    match_prefix-insert-Aligned one_used pair_tree (5 ∷ 6 ∷ 9 ∷ 9 ∷ []) (0 ∷ []) one_used-Inv
      (omega arith) (refl, omega arith, tt, tt) (omega arith) ((0, refl, omega arith), tt)

find_lru_leaf-Chosen_example : Chosen [] pair_tree.children (find_lru_leaf pair_tree [])
find_lru_leaf-Chosen_example = find_lru_leaf-Chosen pair_tree []

-- The only leaf is chosen, and not a second time.
choice_run : (find_lru_leaf pair_tree [] ≡ some pair) × (find_lru_leaf pair_tree (1 ∷ []) ≡ none)
unfolding find_lru_leaf scan visit better eligible no_children is_rejected
choice_run = (refl, refl)
