-- ===== src/Radix/Evict/Removal.antt =====
-- `erase_node` takes one leaf off the tree, the one that was chosen.
use kvslab.Base.{
  ℕ, ◌+◌, ◌≤◌, ◌≡◌, refl, sym, ap, ◌∙◌, ◌≢◌, ◌⊎◌, inl, inr, true, false, List, arith, ◌==◌,
  if◌then◌else◌, count,
}
use kvslab.Radix.State.{Node, Children, end, child, first_key}
use kvslab.Radix.Entries.{Aligned}
use kvslab.Radix.WellFormed.{nodes_at, stored, NoKey, Keyed, WellFormed}
use kvslab.Radix.Evict.{erase_entry, holds, erase_below, erase_node}
use kvslab.Radix.Evict.Oldest.{IsEligible}

-- `after` is `kids` without the leaf `v`.
pub data Removes (v : Node) : Children → Children → Type 0 where
  here : {key : ℕ} {rest : Children} → Removes v (child key v end rest) rest
  under :
      {key : ℕ} {n : Node} {below less rest : Children}
      → Removes v below less
      → Removes v (child key n below rest) (child key n less rest)
  beside :
      {key : ℕ} {n : Node} {below rest less : Children}
      → Removes v rest less
      → Removes v (child key n below rest) (child key n below less)

-- The leaf is one of the map's own entries, or lies below one.
abbrev OwnLeaf : Node → Children → Type 0
OwnLeaf v end = ⊥
OwnLeaf v (child key n below rest) = ((n ≡ v) × (below ≡ end)) ⊎ OwnLeaf v rest

abbrev LowerLeaf : Node → Children → Type 0
LowerLeaf v end = ⊥
LowerLeaf v (child key n below rest) = (OwnLeaf v below ⊎ LowerLeaf v below) ⊎ LowerLeaf v rest

leaf_cases :
    (rejected : List ℕ) (v : Node) (kids : Children)
    → IsEligible rejected v kids
    → OwnLeaf v kids ⊎ LowerLeaf v kids
leaf_cases rejected v end h = absurd h
leaf_cases rejected v (child key n end rest) (inl (m, e)) = inl (inl (e, refl))
leaf_cases rejected v (child key n (child k m b r) rest) (inl (m', e)) = absurd m'
leaf_cases rejected v (child key n below rest) (inr (inl h)) =
    inr (inl (leaf_cases rejected v below h))
leaf_cases rejected v (child key n below rest) (inr (inr h)) = elim (leaf_cases rejected v rest h) [
  | inl own ↦ inl (inr own)
  | inr lower ↦ inr (inr lower)
]

OwnLeaf-holds : (v : Node) (kids : Children) → OwnLeaf v kids → holds v.ptr kids ≡ true
unfolding holds
OwnLeaf-holds v end h = absurd h
OwnLeaf-holds v (child key n below rest) (inl (e, f)) = ground (arith, ap (λ (m : Node). m.ptr) e)
OwnLeaf-holds v (child key n below rest) (inr h) = ground (arith, OwnLeaf-holds v rest h)

OwnLeaf-NoKey :
    (bt k : ℕ) (v : Node) (kids : Children)
    → Keyed bt kids
    → OwnLeaf v kids
    → NoKey k kids
    → k ≢ first_key bt v.tokens
OwnLeaf-NoKey bt k v end w h no_key = absurd h
OwnLeaf-NoKey bt k v (child key n below rest) (e, k2, l, w) (inl (f, g)) (ne, no_key) =
    λ q. ne (q ∙ ap (λ (m : Node). first_key bt m.tokens) (sym f) ∙ sym e)
OwnLeaf-NoKey bt k v (child key n below rest) (e, k2, l, w) (inr h) (ne, no_key) =
    OwnLeaf-NoKey bt k v rest w h no_key

erase_entry-Removes :
    (bt : ℕ) (v : Node) (kids : Children)
    → Keyed bt kids
    → OwnLeaf v kids
    → Removes v kids (erase_entry (first_key bt v.tokens) kids)
unfolding erase_entry
erase_entry-Removes bt v end w h = absurd h
erase_entry-Removes bt v (child key n below rest) (e, k2, l, w) (inl (f, g)) =
    let same : (key == first_key bt v.tokens) ≡ true =
      ground (arith, ap (λ (m : Node). first_key bt m.tokens) f) in
    rw (same, f, g) here
erase_entry-Removes bt v (child key n below rest) (e, k2, l, w) (inr h) =
    let ne = OwnLeaf-NoKey bt key v rest w h k2 in
    let other : (key == first_key bt v.tokens) ≡ false = ground (arith, ne) in
    rw (other, erase_entry) (beside (erase_entry-Removes bt v rest w h))

own_at : (v : Node) (kids : Children) → OwnLeaf v kids → 1 ≤ nodes_at v.ptr kids
unfolding nodes_at
own_at v end h = absurd h
own_at v (child key n below rest) (inl (e, f)) = ground (arith, ap (λ (m : Node). m.ptr) e)
own_at v (child key n below rest) (inr h) = omega (arith, own_at v rest h)

lower_at : (v : Node) (kids : Children) → LowerLeaf v kids → 1 ≤ nodes_at v.ptr kids
unfolding nodes_at
lower_at v end h = absurd h
lower_at v (child key n below rest) (inl (inl h)) = omega (arith, own_at v below h)
lower_at v (child key n below rest) (inl (inr h)) = omega (arith, lower_at v below h)
lower_at v (child key n below rest) (inr h) = omega (arith, lower_at v rest h)

holds-absent : (p : ℕ) (kids : Children) → nodes_at p kids ≡ 0 → holds p kids ≡ false
unfolding nodes_at holds
holds-absent p end e = refl
holds-absent p (child key n below rest) e = ground (arith, holds-absent p rest (ground arith))

erase_below-absent :
    (p key : ℕ) (kids : Children) → nodes_at p kids ≡ 0 → erase_below p key kids ≡ kids
unfolding nodes_at erase_below
erase_below-absent p key end e = refl
erase_below-absent p key (child k n below rest) e =
    let none_below : nodes_at p below ≡ 0 = ground arith in
    let none_beside : nodes_at p rest ≡ 0 = ground arith in
    rw
      (
        holds-absent p below none_below,
        erase_below-absent p key below none_below,
        erase_below-absent p key rest none_beside,
      )
      refl

-- An address that is in the map once, and below one of its entries, is not the map's own.
lower-holds :
    (v : Node) (kids : Children)
    → nodes_at v.ptr kids ≤ 1
    → LowerLeaf v kids
    → holds v.ptr kids ≡ false
unfolding nodes_at holds
lower-holds v end le h = refl
lower-holds v (child key n below rest) le (inl h) =
    let there : 1 ≤ nodes_at v.ptr below = elim h [
      | inl own ↦ own_at v below own
      | inr lower ↦ lower_at v below lower
    ] in
    ground (arith, holds-absent v.ptr rest (ground arith))
lower-holds v (child key n below rest) le (inr h) =
    ground (arith, lower_at v rest h, lower-holds v rest (omega arith) h)

erase_below-Removes :
    (bt : ℕ) (v : Node) (kids : Children)
    → Keyed bt kids
    → nodes_at v.ptr kids ≤ 1
    → LowerLeaf v kids
    → Removes v kids (erase_below v.ptr (first_key bt v.tokens) kids)
unfolding erase_below nodes_at
erase_below-Removes bt v end w le h = absurd h
erase_below-Removes bt v (child key n below rest) (e, k2, l, w) le (inl (inl own)) =
    let there = own_at v below own in
    rw
      (
        OwnLeaf-holds v below own,
        erase_below-absent v.ptr (first_key bt v.tokens) rest (ground arith),
      )
      (under (erase_entry-Removes bt v below l own))
erase_below-Removes bt v (child key n below rest) (e, k2, l, w) le (inl (inr lower)) =
    let there = lower_at v below lower in
    let once : nodes_at v.ptr below ≤ 1 = ground arith in
    rw
      (
        lower-holds v below once lower,
        erase_below-absent v.ptr (first_key bt v.tokens) rest (ground arith),
      )
      (under (erase_below-Removes bt v below l once lower))
erase_below-Removes bt v (child key n below rest) (e, k2, l, w) le (inr h) =
    let there = lower_at v rest h in
    let none_below : nodes_at v.ptr below ≡ 0 = ground arith in
    rw
      (
        holds-absent v.ptr below none_below,
        erase_below-absent v.ptr (first_key bt v.tokens) below none_below,
      )
      (beside (erase_below-Removes bt v rest w (ground arith) h))

-- In a well-formed map the leaf that was chosen is the one that goes.
pub erase_node-Removes :
    (bt next : ℕ) (rejected : List ℕ) (v : Node) (kids : Children)
    → WellFormed bt next kids
    → IsEligible rejected v kids
    → Removes v kids (erase_node v.ptr (first_key bt v.tokens) kids)
unfolding erase_node
erase_node-Removes bt next rejected v kids w h = elim (leaf_cases rejected v kids h) [
  | inl own ↦ rw (OwnLeaf-holds v kids own, erase_node) (erase_entry-Removes bt v kids w.keyed own)
  | inr lower ↦
      rw (lower-holds v kids (w.distinct v.ptr) lower, erase_node)
        (erase_below-Removes bt v kids w.keyed (w.distinct v.ptr) lower)
]

-- What a removal does to the counts.
pub Removes-nodes_at :
    {v : Node} {kids less : Children} (p : ℕ)
    → Removes v kids less
    → nodes_at p less + (if v.ptr == p then 1 else 0) ≡ nodes_at p kids
unfolding nodes_at
Removes-nodes_at p here = omega arith
Removes-nodes_at p (under r) = omega (arith, Removes-nodes_at p r)
Removes-nodes_at p (beside r) = omega (arith, Removes-nodes_at p r)

pub Removes-stored :
    {v : Node} {kids less : Children} (b : ℕ)
    → Removes v kids less
    → stored b less + count b v.blocks ≡ stored b kids
unfolding stored
Removes-stored b here = omega arith
Removes-stored b (under r) = omega (arith, Removes-stored b r)
Removes-stored b (beside r) = omega (arith, Removes-stored b r)

Removes-NoKey :
    {v : Node} {kids less : Children} (k : ℕ) → Removes v kids less → NoKey k kids → NoKey k less
Removes-NoKey k here h = h.1
Removes-NoKey k (under r) h = h
Removes-NoKey k (beside r) h = (h.0, Removes-NoKey k r h.1)

Removes-Keyed :
    {v : Node} {kids less : Children} (bt : ℕ) → Removes v kids less → Keyed bt kids → Keyed bt less
Removes-Keyed bt here (e, k, l, r) = r
Removes-Keyed bt (under m) (e, k, l, r) = (e, k, Removes-Keyed bt m l, r)
Removes-Keyed bt (beside m) (e, k, l, r) = (e, Removes-NoKey _ m k, l, Removes-Keyed bt m r)

Removes-Aligned :
    {v : Node} {kids less : Children} (bt : ℕ)
    → Removes v kids less
    → Aligned bt kids
    → Aligned bt less
Removes-Aligned bt here (e, k, l, r) = r
Removes-Aligned bt (under m) (e, k, l, r) = (e, k, Removes-Aligned bt m l, r)
Removes-Aligned bt (beside m) (e, k, l, r) = (e, k, l, Removes-Aligned bt m r)

pub Removes-WellFormed :
    {v : Node} {kids less : Children} (bt next : ℕ)
    → Removes v kids less
    → WellFormed bt next kids
    → WellFormed bt next less
Removes-WellFormed bt next r w = record {
  started = w.started;
  aligned = Removes-Aligned bt r w.aligned;
  keyed = Removes-Keyed bt r w.keyed;
  distinct = λ p. omega (arith, w.distinct p, Removes-nodes_at p r);
  unused = λ p le. omega (arith, w.unused p le, Removes-nodes_at p r);
  not_root = omega (arith, w.not_root, Removes-nodes_at 0 r);
}
