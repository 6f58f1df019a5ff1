-- ===== src/Radix/Clear.antt =====
-- The destructor of RadixTree (src/radix_tree.cpp): it takes the nodes off a stack and gives the
-- blocks of each back to the pool.
use kvslab.Base.{ℕ, zero, suc, List, [], ◌∷◌, out_of_fuel, Result, ok, err, ◌>>=◌, for_each}
use kvslab.Pool.{drop_ref}
use kvslab.Pool.State.{Pool}
use kvslab.Radix.State.{Node, Children, end, child, Tree}
use kvslab.Radix.Evict.{num_entries}

unfoldable pub release_blocks : Pool → Node → Result Pool
release_blocks p n = for_each drop_ref n.blocks p

-- A node on the stack, with its map.
pub record Pending : Type 0 where
  pub node : Node
  pub children : Children

-- The children of a node go on the stack.
unfoldable pub push_children : Children → List Pending → List Pending
push_children end pending = pending
push_children (child key n below rest) pending =
    push_children rest (record { node = n; children = below } ∷ pending)

-- `while (!pending.empty())`, for `fuel` rounds.
unfoldable pub clear : ℕ → List Pending → Pool → Result Pool
unfolding push_children
clear fuel [] p = ok p
clear zero (x ∷ pending) p = err out_of_fuel
clear (suc fuel) (x ∷ pending) p = do
  q ← release_blocks p x.node
  clear fuel (push_children x.children pending) q

-- The root, which has no tokens and no blocks.
abbrev pub root : Tree → Node
root t = record { ptr = 0; tokens = []; blocks = []; lock_count = 0; last_access = t.root_access }

-- The destructor. The root and each other node are taken off once.
unfoldable pub destroy_tree : Pool → Tree → Result Pool
unfolding clear
destroy_tree p t =
    clear (suc (num_entries t.children)) (record { node = root t; children = t.children } ∷ []) p
