-- ===== src/Radix/Evict.antt =====
-- Eviction in RadixTree: `find_lru_leaf`, `tree_is_sole_owner`, `drop_leaf`, `evict` and
-- `pick_demotion_victims`.
--
-- The source takes nodes off a stack: it visits a node, then the last child that it has put there with
-- all that lies below that child, and so on to the first. The model visits the nodes in this order.
pub mod Oldest
pub mod Removal
pub mod Drop
pub mod Loop
pub mod Pick
pub mod Keeps
use kvslab.Base.{
  ℕ, zero, suc, ◌+◌, ◌-◌, ◌*◌, ◌/◌, ◌%◌, ◌^◌, ◌≤◌, ◌<◌, min, ◌≡◌, refl, sym, ap, ◌∙◌, ◌≢◌, ◌↔◌, ◌⊎◌,
  inl, inr, Bool, true, false, ◌&&◌, ◌||◌, not, Option, none, some, List, [], ◌∷◌, ◌++◌, arith, ltb,
  leb, ◌==◌, if◌then◌else◌, u32, u64, sub32, sub64, Bool-cases, Option-cases, length, get_elem?,
  set, take, drop, replicate, is_empty, count, list_eq, length-append, length-set, get_elem?-lt,
  get_elem?_of_lt, get_elem?-set_self, get_elem?-set_ne, get_elem?-set, get_elem?-append_one,
  take-append-drop, length-take, length-drop, length-replicate, list_eq→eq, list_eq_self, Error,
  bad_alloc, invalid_argument, fatal, assertion, undefined, out_of_fuel, Result, ok, err, ◌>>=◌,
  ◌>>◌, guard, at, for_each, at-some, Returns, Returns-bind, Returns-at,
}
use kvslab.Pool.State.{Pool}
use kvslab.Pool.{refcount_of, block_tier, migrating?, decref}
use kvslab.Radix.State.{Node, Children, end, child, Tree, first_key}

-- `node->children.empty()`
unfoldable pub no_children : Children → Bool
no_children end = true
no_children (child key n below rest) = false

-- `std::find(rejected.begin(), rejected.end(), node) != rejected.end()`
unfoldable pub is_rejected : ℕ → List ℕ → Bool
is_rejected p [] = false
is_rejected p (q ∷ qs) = if p == q then true else is_rejected p qs

-- The tests that a node passes to be compared with the best so far.
unfoldable pub eligible : List ℕ → Node → Children → Bool
eligible rejected n below =
    no_children below && (not (ltb 0 n.lock_count) && not (is_rejected n.ptr rejected))

unfoldable pub better : Option Node → Node → Option Node
better none n = some n
better (some best) n = if ltb n.last_access best.last_access then some n else some best

unfoldable pub visit : List ℕ → Option Node → Node → Children → Option Node
visit rejected best n below = if eligible rejected n below then better best n else best

-- All nodes of a map, with those below them, the last entry first.
unfoldable pub scan : List ℕ → Children → Option Node → Option Node
scan rejected end best = best
scan rejected (child key n below rest) best =
    scan rejected below (visit rejected (scan rejected rest best) n below)

unfoldable pub find_lru_leaf : Tree → List ℕ → Option Node
find_lru_leaf t rejected = scan rejected t.children none

unfoldable pub sole_owner : Pool → List ℕ → Result Bool
sole_owner p [] = ok true
sole_owner p (b ∷ bs) =
    let rest = sole_owner p bs in
    refcount_of p b >>= (λ count. if count == 1 then rest else ok false)

unfoldable pub tree_is_sole_owner : Pool → Node → Result Bool
tree_is_sole_owner p n = sole_owner p n.blocks

-- `if (pool_.decref(id)) ++freed;`
unfoldable pub count_freed : ℕ × Pool → ℕ → Result (ℕ × Pool)
count_freed (freed, p) b = do (gone, q) ← decref p b; ok (if gone then freed + 1 else freed, q)

-- `children.erase(key)` of one map.
unfoldable pub erase_entry : ℕ → Children → Children
erase_entry key end = end
erase_entry key (child k n below rest) =
    let others = erase_entry key rest in if k == key then rest else child k n below others

-- One of the entries of the map is the node with address `p`.
unfoldable pub holds : ℕ → Children → Bool
holds p end = false
holds p (child k n below rest) = if n.ptr == p then true else holds p rest

-- `parent->children.erase(key)`, where the parent of `p` is a node of the map or below it.
unfoldable pub erase_below : ℕ → ℕ → Children → Children
erase_below p key end = end
erase_below p key (child k n below rest) =
    child k n (if holds p below then erase_entry key below else erase_below p key below)
      (erase_below p key rest)

-- The same, where the parent may be the root.
unfoldable pub erase_node : ℕ → ℕ → Children → Children
erase_node p key kids = if holds p kids then erase_entry key kids else erase_below p key kids

unfoldable pub drop_leaf : Pool → Tree → Node → Result (ℕ × Pool × Tree)
drop_leaf p t victim = do
  (freed, q) ← for_each count_freed victim.blocks (0, p)
  ok (
    freed,
    q,
    record t {
      children = erase_node victim.ptr (first_key t.block_tokens victim.tokens) t.children;
      stored_blocks = sub64 t.stored_blocks (length victim.blocks);
      num_nodes = sub64 t.num_nodes 1;
    },
  )

-- The loop of `evict`, for `fuel` rounds.
unfoldable pub evict_loop : ℕ → ℕ → ℕ → List ℕ → Pool → Tree → Result (ℕ × Pool × Tree)
evict_loop zero num freed rejected p t = err out_of_fuel
evict_loop (suc fuel) num freed rejected p t =
    if ltb freed num
    then elim (find_lru_leaf t rejected) [
      | none ↦ ok (freed, p, t)
      | some victim ↦ do
        sole ← tree_is_sole_owner p victim
        (if sole
            then (do
              (reclaimed, q, u) ← drop_leaf p t victim
              guard (ltb 0 reclaimed) assertion
              evict_loop fuel num (freed + reclaimed) rejected q u)
            else evict_loop fuel num freed (victim.ptr ∷ rejected) p t)
    ]
    else ok (freed, p, t)

unfoldable pub num_entries : Children → ℕ
num_entries end = 0
num_entries (child key n below rest) = suc (num_entries below + num_entries rest)

-- How many blocks the tree refers to.
unfoldable pub total : Children → ℕ
total end = 0
total (child key n below rest) = length n.blocks + (total below + total rest)

-- Each round frees a block, or rejects a node that was not rejected, or is the last.
unfoldable pub evict : ℕ → Pool → Tree → Result (ℕ × Pool × Tree)
evict num p t = evict_loop (suc (num + num_entries t.children)) num 0 [] p t

-- The loop of `pick_demotion_victims` over the blocks of a node; `before` is the size that `out` had
-- at first.
unfoldable pub pick_blocks : Pool → ℕ → ℕ → List ℕ → List ℕ → Result (List ℕ)
pick_blocks p before num [] out = ok out
pick_blocks p before num (b ∷ bs) out =
    let skip = pick_blocks p before num bs out in
    let add = pick_blocks p before num bs (out ++ b ∷ []) in
    if ltb (length out - before) num
    then (do
      tier ← block_tier p b
      (if tier == 0
          then (do
            count ← refcount_of p b
            (if count == 1 then (if migrating? p b then skip else add) else skip))
          else skip))
    else ok out

-- The loop over the nodes, for `fuel` rounds.
unfoldable pub pick_loop : ℕ → Pool → Tree → ℕ → ℕ → List ℕ → List ℕ → Result (List ℕ)
pick_loop zero p t before num rejected out = err out_of_fuel
pick_loop (suc fuel) p t before num rejected out =
    if ltb (length out - before) num
    then elim (find_lru_leaf t rejected) [
      | none ↦ ok out
      | some victim ↦ do
        more ← pick_blocks p before num victim.blocks out
        pick_loop fuel p t before num (victim.ptr ∷ rejected) more
    ]
    else ok out

-- Each round rejects a node that was not rejected, or is the last.
unfoldable pub pick_demotion_victims : Pool → Tree → ℕ → List ℕ → Result (ℕ × List ℕ)
pick_demotion_victims p t num out = do
  picked ← pick_loop (suc (num_entries t.children)) p t (length out) num [] out
  ok (length picked - length out, picked)
