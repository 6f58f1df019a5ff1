-- ===== src/Radix/WellFormed.antt =====
-- Well-formed trees of RadixTree, and the counts of their nodes and blocks.
pub mod Match
pub mod Insert
use kvslab.Base.{
  ℕ, zero, suc, ◌+◌, ◌-◌, ◌*◌, ◌/◌, ◌%◌, ◌^◌, ◌≤◌, ◌<◌, min, ◌≡◌, refl, sym, ap, ◌∙◌, ◌≢◌, ◌↔◌, ◌⊎◌,
  inl, inr, Bool, true, false, ◌&&◌, ◌||◌, not, Option, none, some, List, [], ◌∷◌, ◌++◌, arith, ltb,
  leb, ◌==◌, if◌then◌else◌, u32, u64, sub32, sub64, Bool-cases, Option-cases, length, get_elem?,
  set, take, drop, replicate, is_empty, count, list_eq, length-append, length-set, get_elem?-lt,
  get_elem?_of_lt, get_elem?-set_self, get_elem?-set_ne, get_elem?-set, get_elem?-append_one,
  take-append-drop, length-take, length-drop, length-replicate, list_eq→eq, list_eq_self, Error,
  bad_alloc, invalid_argument, fatal, assertion, undefined, out_of_fuel, Result, ok, err, ◌>>=◌,
  ◌>>◌, guard, at, for_each, at-some, Returns, Returns-bind, Returns-at,
}
use kvslab.Radix.State.{Node, Children, end, child, Tree, first_key}
use kvslab.Radix.Entries.{Aligned}

-- How many entries have a node with the address `p`.
unfoldable pub nodes_at : ℕ → Children → ℕ
nodes_at p end = 0
nodes_at p (child key n below rest) =
    (if n.ptr == p then 1 else 0) + (nodes_at p below + nodes_at p rest)

-- How often the tree refers to block `b`.
unfoldable pub stored : ℕ → Children → ℕ
stored b end = 0
stored b (child key n below rest) = count b n.blocks + (stored b below + stored b rest)

-- No entry of the map has this key.
abbrev pub NoKey : ℕ → Children → Type 0
NoKey k end = Unit {0}
NoKey k (child key n below rest) = (k ≢ key) × NoKey k rest

-- A map has an entry once at most, under the hash of its node's first block.
abbrev pub Keyed : ℕ → Children → Type 0
Keyed bt end = Unit {0}
Keyed bt (child key n below rest) =
    (key ≡ first_key bt n.tokens) × NoKey key rest × Keyed bt below × Keyed bt rest

-- The nodes are aligned to whole blocks, stand under their keys, and have addresses of their own,
-- which are neither that of the root nor still to be given.
pub record WellFormed (bt : ℕ) (next : ℕ) (kids : Children) : Type 0 where
  pub started : 0 < next
  pub aligned : Aligned bt kids
  pub keyed : Keyed bt kids
  pub distinct : (p : ℕ) → nodes_at p kids ≤ 1
  pub unused : (p : ℕ) → next ≤ p → nodes_at p kids ≡ 0
  pub not_root : nodes_at 0 kids ≡ 0
