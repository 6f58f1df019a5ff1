-- ===== src/Radix/Match.antt =====
-- `match_prefix` of RadixTree.
pub mod Keeps
pub mod Found
pub mod Whole
pub mod Runs
pub mod Longest
pub mod Induction
use kvslab.Base.{
  ℕ, zero, suc, ◌+◌, ◌-◌, ◌*◌, ◌/◌, ◌%◌, ◌^◌, ◌≤◌, ◌<◌, min, ◌≡◌, refl, sym, ap, ◌∙◌, ◌≢◌, ◌↔◌, ◌⊎◌,
  inl, inr, Bool, true, false, ◌&&◌, ◌||◌, not, Option, none, some, List, [], ◌∷◌, ◌++◌, arith, ltb,
  leb, ◌==◌, if◌then◌else◌, u32, u64, sub32, sub64, Bool-cases, Option-cases, length, get_elem?,
  set, take, drop, replicate, is_empty, count, list_eq, length-append, length-set, get_elem?-lt,
  get_elem?_of_lt, get_elem?-set_self, get_elem?-set_ne, get_elem?-set, get_elem?-append_one,
  take-append-drop, length-take, length-drop, length-replicate, list_eq→eq, list_eq_self, Error,
  bad_alloc, invalid_argument, fatal, assertion, undefined, Result, ok, err, ◌>>=◌, ◌>>◌, guard, at,
  for_each, at-some, Returns, Returns-bind, Returns-at,
}
use kvslab.Radix.State.{Node, Children, end, child, Tree, first_key, common, tick, split_node}

-- What the walk has found below a node, and the map that it leaves.
pub record Walk : Type 0 where
  pub children : Children
  pub clock : ℕ
  pub splits : ℕ
  pub tokens : ℕ
  pub blocks : List ℕ
  pub node : Option ℕ

-- `break`
unfoldable pub stop : Children → ℕ → Walk
stop kids clock = record {
  children = kids;
  clock = clock;
  splits = 0;
  tokens = 0;
  blocks = [];
  node = none;
}

abbrev pub or_node : Option ℕ → ℕ → Option ℕ
or_node none p = some p
or_node (some q) p = some q

-- The match ends inside the node, after `c` blocks.
unfoldable pub end_inside : ℕ → ℕ → ℕ → Node → Children → Children → ℕ → Walk
end_inside bt c fresh n below rest clock = record {
  children = split_node bt c fresh (tick clock) n below end rest;
  clock = tick clock;
  splits = 1;
  tokens = c * bt;
  blocks = take c n.blocks;
  node = some fresh;
}

-- The match goes through the node, and on with `deeper`.
unfoldable pub go_through : ℕ → ℕ → Node → Children → ℕ → Walk → Walk
go_through bt key n rest clock deeper = record {
  children = child key (record n { last_access = tick clock }) deeper.children rest;
  clock = deeper.clock;
  splits = deeper.splits;
  tokens = length n.blocks * bt + deeper.tokens;
  blocks = n.blocks ++ deeper.blocks;
  node = or_node deeper.node n.ptr;
}

-- The loop, from a map and with the tokens that are left; `fresh` is the address of a new node.
unfoldable pub match_walk : ℕ → ℕ → Children → List ℕ → ℕ → Walk
match_walk bt fresh end ts clock = stop end clock
match_walk bt fresh (child key n below rest) ts clock =
    let c = common bt n ts in
    let deeper = match_walk bt fresh below (drop (c * bt) ts) (tick clock) in
    let beside = match_walk bt fresh rest ts clock in
    if ltb (length ts) bt
    then stop (child key n below rest) clock
    else if key == first_key bt ts
    then (if c == 0
        then stop (child key n below rest) clock
        else if ltb c (length n.blocks)
        then end_inside bt c fresh n below rest clock
        else go_through bt key n rest clock deeper)
    else record beside { children = child key n below beside.children }

pub record MatchResult : Type 0 where
  pub num_tokens : ℕ
  pub blocks : List ℕ
  pub node : Option ℕ

unfoldable pub match_prefix : Tree → List ℕ → MatchResult × Tree
unfolding match_walk
match_prefix t ts =
    let w = match_walk t.block_tokens t.next_ptr t.children ts t.clock in
    (
      record { num_tokens = w.tokens; blocks = w.blocks; node = w.node },
      record t {
        children = w.children;
        clock = w.clock;
        num_nodes = t.num_nodes + w.splits;
        next_ptr = t.next_ptr + w.splits;
      },
    )
