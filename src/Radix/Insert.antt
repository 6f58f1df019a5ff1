-- ===== src/Radix/Insert.antt =====
-- `insert` of RadixTree.
--
-- The walk has the tokens and the blocks that are left, both cut at `limit`, so `pos < limit` is
-- that tokens are left. A new entry comes to the end of the map where the search for it ended.
pub mod Adopt
pub mod Given
pub mod Limit
pub mod Lookup
pub mod Induction
use kvslab.Base.{
  ℕ, zero, suc, ◌+◌, ◌-◌, ◌*◌, ◌/◌, ◌%◌, ◌^◌, ◌≤◌, ◌<◌, min, ◌≡◌, refl, sym, ap, ◌∙◌, ◌≢◌, ◌↔◌, ◌⊎◌,
  inl, inr, Bool, true, false, ◌&&◌, ◌||◌, not, Option, none, some, List, [], ◌∷◌, ◌++◌, arith, ltb,
  leb, ◌==◌, if◌then◌else◌, u32, u64, sub32, sub64, Bool-cases, Option-cases, length, get_elem?,
  set, take, drop, replicate, is_empty, count, list_eq, length-append, length-set, get_elem?-lt,
  get_elem?_of_lt, get_elem?-set_self, get_elem?-set_ne, get_elem?-set, get_elem?-append_one,
  take-append-drop, length-take, length-drop, length-replicate, list_eq→eq, list_eq_self, Error,
  bad_alloc, invalid_argument, fatal, assertion, undefined, Result, ok, err, ◌>>=◌, ◌>>◌, guard, at,
  for_each, at-some, Returns, Returns-bind, Returns-at,
}
use kvslab.Pool.State.{Pool}
use kvslab.Pool.{incref}
use kvslab.Radix.State.{
  Node, Children, end, child, Tree, first_key, common, tick, split_node, split_tail,
}

-- What the walk leaves: the map, the time of the last `touch` of the node that owns the map, if
-- there was one, how many nodes were made, the blocks of the new leaf, and whether it was refused.
pub record Stored : Type 0 where
  pub children : Children
  pub clock : ℕ
  pub touched : Option ℕ
  pub made : ℕ
  pub adopted : List ℕ
  pub refused : Bool

-- All tokens are cached: `touch(cur)`.
unfoldable pub cached : Children → ℕ → Stored
cached kids clock = record {
  children = kids;
  clock = tick clock;
  touched = some (tick clock);
  made = 0;
  adopted = [];
  refused = false;
}

-- A hash collision.
unfoldable pub refuse : Children → ℕ → Stored
refuse kids clock = record {
  children = kids;
  clock = clock;
  touched = none;
  made = 0;
  adopted = [];
  refused = true;
}

-- The new leaf.
unfoldable pub leaf : ℕ → List ℕ → List ℕ → ℕ → Node
leaf fresh ts bs now = record {
  ptr = fresh;
  tokens = ts;
  blocks = bs;
  lock_count = 0;
  last_access = now;
}

unfoldable pub hang : ℕ → ℕ → List ℕ → List ℕ → ℕ → Stored
hang bt fresh ts bs clock = record {
  children = child (first_key bt ts) (leaf fresh ts bs (tick clock)) end end;
  clock = tick clock;
  touched = none;
  made = 1;
  adopted = bs;
  refused = false;
}

-- What happens to the tokens that are left below the head of a split, which has the tail only.
unfoldable pub below_head : ℕ → ℕ → ℕ → Node → List ℕ → List ℕ → ℕ → Stored
below_head bt c fresh n ts bs clock =
    if ltb 0 (length ts)
    then (if first_key bt (split_tail bt c n).tokens == first_key bt ts
        then refuse end clock
        else hang bt fresh ts bs clock)
    else cached end clock

abbrev pub touch_or : Option ℕ → ℕ → ℕ
touch_or none now = now
touch_or (some later) now = later

-- The entries diverge inside the node, after `c` blocks.
unfoldable pub insert_inside : ℕ → ℕ → ℕ → Node → Children → Children → List ℕ → List ℕ → ℕ → Stored
insert_inside bt c fresh n below rest ts bs clock =
    let s = below_head bt c (fresh + 1) n (drop (c * bt) ts) (drop c bs) (tick clock) in
    record s {
      children = split_node bt c fresh (touch_or s.touched (tick clock)) n below s.children rest;
      touched = none;
      made = 1 + s.made;
    }

-- The node is cached as a whole, and the walk goes on below it.
unfoldable pub insert_through : ℕ → Node → Children → ℕ → Stored → Stored
insert_through key n rest clock s = record s {
  children = child key (record n { last_access = touch_or s.touched (tick clock) }) s.children rest;
  touched = none;
}

unfoldable pub insert_walk : ℕ → ℕ → Children → List ℕ → List ℕ → ℕ → Stored
insert_walk bt fresh end ts bs clock =
    if ltb 0 (length ts) then hang bt fresh ts bs clock else cached end clock
insert_walk bt fresh (child key n below rest) ts bs clock =
    let c = common bt n ts in
    let deeper = insert_walk bt fresh below (drop (c * bt) ts) (drop c bs) (tick clock) in
    let beside = insert_walk bt fresh rest ts bs clock in
    if ltb 0 (length ts)
    then (if key == first_key bt ts
        then (if c == 0
            then refuse (child key n below rest) clock
            else if ltb c (length n.blocks)
            then insert_inside bt c fresh n below rest ts bs clock
            else insert_through key n rest clock deeper)
        else record beside { children = child key n below beside.children })
    else cached (child key n below rest) clock

-- The tokens that can be stored.
unfoldable pub insert_limit : ℕ → List ℕ → List ℕ → ℕ
insert_limit bt ts bs = min (length ts / bt * bt) (u64 (length bs * bt))

unfoldable pub insert : Pool → Tree → List ℕ → List ℕ → Result (ℕ × Pool × Tree)
insert pool t ts bs = do
  let bt = t.block_tokens
  let limit = insert_limit bt ts bs
  let s = insert_walk bt t.next_ptr t.children (take limit ts) (take (limit / bt) bs) t.clock
  held ← for_each incref s.adopted pool
  ok (
    length s.adopted,
    held,
    record t {
      children = s.children;
      root_access = touch_or s.touched t.root_access;
      clock = s.clock;
      stored_blocks = t.stored_blocks + length s.adopted;
      num_nodes = t.num_nodes + s.made;
      collisions = t.collisions + (if s.refused then 1 else 0);
      next_ptr = t.next_ptr + s.made;
    },
  )
