-- ===== src/Radix/State.antt =====
-- The nodes of RadixTree, and what its walks share.
--
-- A node is owned by the map of its parent, so the tree is an inductive type: a map is a list of
-- entries, each a key, a node and the node's own map. A `Node*` is the node's `ptr`, a number that
-- it keeps while the tree changes around it; `parent` is the node above. The root is no entry: its
-- `ptr` is 0, it holds no token, and is never pinned. The order of a list stands for the order in
-- which `std::unordered_map` iterates, which the source leaves open. The counters of nodes and of
-- stored blocks count objects that are in memory, so they are written without their wrap at 64 bits.
use kvslab.Base.{
  ℕ, zero, suc, ◌+◌, ◌*◌, ◌/◌, min, List, ltb, if◌then◌else◌, u64, length, take, drop, list_eq,
  assertion, Result, ok, ◌>>◌, guard,
}
use kvslab.Types.{block_key}

pub record Node : Type 0 where
  pub ptr : ℕ
  pub tokens : List ℕ
  pub blocks : List ℕ
  pub lock_count : ℕ
  pub last_access : ℕ

-- `child key node below rest`: an entry, with the map of its node, before the other entries.
pub data Children : Type 0 where
  end : Children
  child : ℕ → Node → Children → Children → Children

-- `next_ptr` is a number that no node has had.
pub record Tree : Type 0 where
  pub block_tokens : ℕ
  pub children : Children
  pub root_access : ℕ
  pub clock : ℕ
  pub stored_blocks : ℕ
  pub num_nodes : ℕ
  pub collisions : ℕ
  pub next_ptr : ℕ

-- The constructor.
unfoldable pub empty_tree : ℕ → Result Tree
empty_tree block_tokens =
    guard (ltb 0 block_tokens) assertion
    >> ok (record {
      block_tokens = block_tokens;
      children = end;
      root_access = 0;
      clock = 0;
      stored_blocks = 0;
      num_nodes = 0;
      collisions = 0;
      next_ptr = 1;
    })

-- The key of the first block of a run of tokens.
unfoldable pub first_key : ℕ → List ℕ → ℕ
first_key bt ts = block_key (take bt ts)

-- The loop that counts the matching blocks, `max` at most, from the front of both runs.
unfoldable pub common_blocks : ℕ → ℕ → List ℕ → List ℕ → ℕ
common_blocks bt zero mine theirs = 0
common_blocks bt (suc max) mine theirs =
    let rest = suc (common_blocks bt max (drop bt mine) (drop bt theirs)) in
    if list_eq (take bt mine) (take bt theirs) then rest else 0

-- The matching blocks of a node against the tokens that are left.
unfoldable pub common : ℕ → Node → List ℕ → ℕ
common bt n ts = common_blocks bt (min (length n.blocks) (length ts / bt)) n.tokens ts

abbrev pub tick : ℕ → ℕ
tick clock = u64 (clock + 1)

-- The two nodes that `split_node` makes of one, at `c` blocks: the new parent, and the old node.
unfoldable pub split_head : ℕ → ℕ → ℕ → Node → Node
split_head bt c fresh n = record {
  ptr = fresh;
  tokens = take (c * bt) n.tokens;
  blocks = take c n.blocks;
  lock_count = n.lock_count;
  last_access = n.last_access;
}

unfoldable pub split_tail : ℕ → ℕ → Node → Node
split_tail bt c n = record n { tokens = drop (c * bt) n.tokens; blocks = drop c n.blocks }

-- `split_node`: the entry of the new parent, touched at `now`, over that of the old node. `beside`
-- are the entries put next to the old node. The source finds the node's slot by the hash of its first
-- block; both callers have just found it under this hash. They have 0 < c < `blocks.size()`, which is
-- what the asserts demand where a node has `block_tokens` tokens for each block.
unfoldable pub split_node : ℕ → ℕ → ℕ → ℕ → Node → Children → Children → Children → Children
split_node bt c fresh now n below beside rest =
    let head = record (split_head bt c fresh n) { last_access = now } in
    let tail = split_tail bt c n in
    child (first_key bt n.tokens) head (child (first_key bt tail.tokens) tail below beside) rest
