-- ===== src/Radix/Pin/Path.antt =====
-- The blocks on the way to a node: `match_prefix`, and then `lock`.
use kvslab.Base.{
  ℕ, ◌+◌, ◌^◌, ◌≤◌, ◌<◌, ◌≡◌, refl, ap, inl, inr, Option, none, some, List, [], arith, ltb, ◌==◌,
  if◌then◌else◌, Bool-cases, Option-cases, count, Returns,
}
use mathlib.Core.Path.{subst}
use kvslab.Pool.State.{Pool}
use kvslab.Radix.State.{Children, end, child, Tree, split_head, split_node}
use kvslab.Radix.WellFormed.{nodes_at}
use kvslab.Radix.WellFormed.Match.{count-append}
use kvslab.Radix.Match.{Walk, stop, end_inside, go_through, match_walk, match_prefix, or_node}
use kvslab.Radix.Match.Induction.{match_walk-ind}
use kvslab.Radix.Pin.{lock}
use kvslab.Radix.Pin.Count.{weight, Counted, SameNodes}
use kvslab.Radix.Pin.Same.{SameNodes-nodes_at}
use kvslab.Radix.Steady.{Steady, PinOf, match_prefix-Steady, lock-Steady}
use kvslab.Radix.Pin.Locked.{locked}

-- How often the nodes on the way to node `q` refer to it, that node included.
unfoldable pub path_count : ℕ → ℕ → Children → ℕ
path_count q b end = 0
path_count q b (child key n below rest) =
    (if ltb 0 ((if n.ptr == q then 1 else 0) + nodes_at q below) then count b n.blocks else 0)
    + (path_count q b below + path_count q b rest)

weight-pins :
    (pins : ℕ → ℕ) (q : ℕ) (kids : Children) → 0 < nodes_at q kids → pins q ≤ weight pins kids
unfolding weight nodes_at
weight-pins pins q end h = absurd (omega arith)
weight-pins pins q (child key n below rest) h = elim (Bool-cases (n.ptr == q)) [
  | inl same ↦ let e : n.ptr ≡ q = ground arith in omega (arith, ap pins e)
  | inr other ↦ elim (Bool-cases (ltb 0 (nodes_at q below))) [
    | inl inside ↦ omega (arith, weight-pins pins q below (ground arith))
    | inr outside ↦ omega (arith, weight-pins pins q rest (ground arith))
  ]
]

-- The nodes on the way to a pinned node have pins.
pub Counted-locked :
    (pins : ℕ → ℕ) (q b : ℕ) (kids : Children)
    → Counted pins kids
    → 0 < pins q
    → path_count q b kids ≤ locked b kids
unfolding path_count locked nodes_at
Counted-locked pins q b end h some_pin = omega arith
Counted-locked pins q b (child key n below rest) (h, l, r) some_pin =
    let lower = Counted-locked pins q b below l some_pin in
    let next = Counted-locked pins q b rest r some_pin in
    elim (Bool-cases (n.ptr == q)) [
      | inl same ↦ let e : n.ptr ≡ q = ground arith in ground (arith, lower, next, h, ap pins e)
      | inr other ↦ elim (Bool-cases (ltb 0 (nodes_at q below))) [
        | inl inside ↦ ground (arith, lower, next, h, weight-pins pins q below (ground arith))
        | inr outside ↦ ground (arith, lower, next)
      ]
    ]

pub path_count-SameNodes :
    (q b : ℕ) (kids after : Children)
    → SameNodes kids after
    → path_count q b after ≡ path_count q b kids
unfolding path_count
path_count-SameNodes q b end end h = refl
path_count-SameNodes q b end (child key n below rest) h = absurd h
path_count-SameNodes q b (child key n below rest) end h = absurd h
path_count-SameNodes q b (child key n below rest) (child key2 m below2 rest2) (e, f, g, i, l, r) =
    ground (
      arith,
      f,
      ap (λ (bs : List ℕ). count b bs) i,
      SameNodes-nodes_at q below below2 l,
      path_count-SameNodes q b below below2 l,
      path_count-SameNodes q b rest rest2 r,
    )

-- What a walk returns is on the way to the node that it returns.
abbrev pub OnWay : Walk → Type 0
OnWay w =
    (w.node ≡ none → w.blocks ≡ [])
    × ((q b : ℕ)
        → w.node ≡ some q
        → (0 < nodes_at q w.children) × (count b w.blocks ≤ path_count q b w.children))

pub match_walk-OnWay :
    (bt fresh : ℕ) (kids : Children) (ts : List ℕ) (clock : ℕ)
    → OnWay (match_walk bt fresh kids ts clock)
unfolding stop end_inside go_through split_node split_head path_count nodes_at
match_walk-OnWay bt fresh =
    match_walk-ind bt fresh (λ kids ts clock w. OnWay w)
      (λ kids ts clock. ((λ e. refl), (λ q b e. absurd cc)))
      (λ key n below rest ts clock e some_c less. (
        (λ f. absurd cc),
        (λ q b f. let same : fresh ≡ q = cc in (ground (arith, same), ground (arith, same))),
      ))
      (λ key n below rest ts clock w ih. (
        (λ e. absurd (some_node w.node n.ptr e)),
        (λ q b e. elim (Option-cases w.node) [
          | inl nothing ↦
              let same : n.ptr ≡ q = cc in
              let no_more : count b w.blocks ≡ 0 =
                ap (λ (bs : List ℕ). count b bs) (ih.0 nothing) in
              (
                ground (arith, same),
                ground (arith, same, no_more, count-append b n.blocks w.blocks),
              )
          | inr (r, found) ↦
              let same : w.node ≡ some q = cc in
              let (there, le) = ih.1 q b same in
              (ground (arith, there), ground (arith, there, le, count-append b n.blocks w.blocks))
        ]),
      ))
      (λ key n below rest ts clock w ih. (
        ih.0,
        (λ q b e. let (there, le) = ih.1 q b e in (omega (arith, there), omega (arith, le))),
      ))
  where
    some_node : (o : Option ℕ) (p : ℕ) → or_node o p ≡ none → ⊥
    some_node none p e = cc
    some_node (some q) p e = cc

-- The nodes on the way to a node, if there is one, refer to a block so often.
abbrev pub way : Option ℕ → ℕ → Children → ℕ
way none b kids = 0
way (some q) b kids = path_count q b kids

-- The blocks are those of nodes on the way to the node.
abbrev pub InPlace : Option ℕ → List ℕ → Children → Type 0
InPlace o bs kids = (b : ℕ) → count b bs ≤ way o b kids

pub match_prefix-InPlace :
    (t : Tree) (ts : List ℕ)
    → let (found, u) = match_prefix t ts in InPlace found.node found.blocks u.children
unfolding match_prefix
match_prefix-InPlace t ts b =
    let w = match_walk t.block_tokens t.next_ptr t.children ts t.clock in
    let (on_none, on_some) = match_walk-OnWay t.block_tokens t.next_ptr t.children ts t.clock in
    by_node w.node w.blocks w.children on_none (λ q e. (on_some q b e).1)
  where
    by_node :
        (o : Option ℕ) (bs : List ℕ) (kids : Children)
        → (o ≡ none → bs ≡ [])
        → ((q : ℕ) → o ≡ some q → count b bs ≤ path_count q b kids)
        → count b bs ≤ way o b kids
    by_node none bs kids e f = omega (arith, ap (λ (bs : List ℕ). count b bs) (e refl))
    by_node (some q) bs kids e f = f q refl

-- `match_prefix` and then `lock` of the node that it returns.
pub match_prefix-lock :
    {held a b : ℕ → ℕ} {p : Pool} {t : Tree} (s : Steady held a p t) (ts : List ℕ)
    → let (found, u) = match_prefix t ts in
      PinOf found.node a b
      → weight b u.children < 2 ^ 32
      → Returns
          (λ w.
            Steady held b p w
            × (w.block_tokens ≡ t.block_tokens)
            × ((k : ℕ) → count k found.blocks ≤ locked k w.children)
            × SameNodes u.children w.children)
          (lock u found.node)
unfolding match_prefix
match_prefix-lock {a} {b} {t} s ts pin fit =
    let w = match_walk t.block_tokens t.next_ptr t.children ts t.clock in
    let (on_none, on_some) = match_walk-OnWay t.block_tokens t.next_ptr t.children ts t.clock in
    let (u, there) = match_prefix-Steady s ts in
    let (v, e, (steady, same, bt)) = lock-Steady w.node pin u there fit in
    (
      v,
      e,
      (
        steady,
        bt,
        λ k. elim (Option-cases w.node) [
          | inl nothing ↦ omega (arith, ap (λ (bs : List ℕ). count k bs) (on_none nothing))
          | inr (q, found) ↦
              let pinned : 0 < b q =
                ground (arith, subst (λ (o : Option ℕ). PinOf o a b) found pin q) in
              omega (
                arith,
                (on_some q k found).1,
                path_count-SameNodes q k w.children v.children same,
                Counted-locked b q k v.children steady.counted pinned,
              )
        ],
        same,
      ),
    )

-- Once the node that `match_prefix` returns is locked, which does not fail where fewer than 2 ^ 32 pins
-- are out, each block that it returned is one of a node with a pin, as often as it was returned, and
-- the tree accounts for the new pin.
pub match_prefix-lock-locked :
    {held a b : ℕ → ℕ} {p : Pool} {t : Tree} (s : Steady held a p t) (ts : List ℕ)
    → let (found, u) = match_prefix t ts in
      PinOf found.node a b
      → weight b u.children < 2 ^ 32
      → Returns
          (λ w.
            Steady held b p w
            × (w.block_tokens ≡ t.block_tokens)
            × ((k : ℕ) → count k found.blocks ≤ locked k w.children))
          (lock u found.node)
match_prefix-lock-locked s ts pin fit =
    let (v, e, (steady, bt, all_locked, same)) = match_prefix-lock s ts pin fit in
    (v, e, (steady, bt, all_locked))
