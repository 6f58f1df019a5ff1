-- ===== src/Radix/Evict/Loop.antt =====
-- `evict` comes to an end, frees only leaves that are not pinned, and accounts for each reference.
use kvslab.Base.{
  ℕ, zero, suc, ◌+◌, ◌-◌, ◌≤◌, ◌<◌, ◌≡◌, refl, sym, ap, ◌∙◌, inl, inr, true, Option, none, some,
  List, [], ◌∷◌, arith, ltb, if◌then◌else◌, Bool-cases, length, assertion, ◌>>=◌, ◌>>◌, guard,
  Returns,
}
use mathlib.Core.Path.{subst}
use kvslab.Pool.State.{Pool}
use kvslab.Radix.State.{Node, Children, end, child, Tree}
use kvslab.Radix.Entries.{Aligned}
use kvslab.Radix.Sound.{Sound}
use kvslab.Radix.Evict.{
  tree_is_sole_owner, drop_leaf, evict_loop, evict, num_entries, total, is_rejected, find_lru_leaf,
}
use kvslab.Radix.Evict.Oldest.{IsEligible, Chosen, find_lru_leaf-Chosen, NotIn-is_rejected}
use kvslab.Radix.Evict.Removal.{Removes, here, under, beside, erase_node-Removes, Removes-stored}
use kvslab.Radix.Evict.Drop.{Single, sole_owner-Single, drop_leaf-Dropped}

-- The nodes that are not rejected.
unfoldable pub open_nodes : List ℕ → Children → ℕ
open_nodes rejected end = 0
open_nodes rejected (child key n below rest) =
    (if is_rejected n.ptr rejected then 0 else 1)
    + (open_nodes rejected below + open_nodes rejected rest)

pub open_nodes-all : (kids : Children) → open_nodes [] kids ≡ num_entries kids
unfolding open_nodes num_entries is_rejected
open_nodes-all end = refl
open_nodes-all (child key n below rest) = omega (arith, open_nodes-all below, open_nodes-all rest)

open_nodes-more :
    (q : ℕ) (rejected : List ℕ) (kids : Children)
    → open_nodes (q ∷ rejected) kids ≤ open_nodes rejected kids
unfolding open_nodes is_rejected
open_nodes-more q rejected end = omega arith
open_nodes-more q rejected (child key n below rest) =
    ground (arith, open_nodes-more q rejected below, open_nodes-more q rejected rest)

-- To reject the leaf that was chosen leaves fewer.
pub open_nodes-less :
    (rejected : List ℕ) (v : Node) (kids : Children)
    → IsEligible rejected v kids
    → open_nodes (v.ptr ∷ rejected) kids < open_nodes rejected kids
unfolding open_nodes is_rejected
open_nodes-less rejected v end h = absurd h
open_nodes-less rejected v (child key n end rest) (inl ((unpinned, not_in), e)) =
    let same : n.ptr ≡ v.ptr = ap (λ (m : Node). m.ptr) e in
    ground
      (arith, same, NotIn-is_rejected n.ptr rejected not_in, open_nodes-more v.ptr rejected rest)
open_nodes-less rejected v (child key n (child k m b r) rest) (inl (no_leaf, e)) = absurd no_leaf
open_nodes-less rejected v (child key n below rest) (inr (inl h)) =
    ground (arith, open_nodes-less rejected v below h, open_nodes-more v.ptr rejected rest)
open_nodes-less rejected v (child key n below rest) (inr (inr h)) =
    ground (arith, open_nodes-less rejected v rest h, open_nodes-more v.ptr rejected below)

Removes-open_nodes :
    {v : Node} {kids less : Children} (rejected : List ℕ)
    → Removes v kids less
    → open_nodes rejected less ≤ open_nodes rejected kids
unfolding open_nodes
Removes-open_nodes rejected here = ground arith
Removes-open_nodes rejected (under r) = omega (arith, Removes-open_nodes rejected r)
Removes-open_nodes rejected (beside r) = omega (arith, Removes-open_nodes rejected r)

Removes-total :
    {v : Node} {kids less : Children}
    → Removes v kids less
    → total less + length v.blocks ≡ total kids
unfolding total
Removes-total here = omega arith
Removes-total (under r) = omega (arith, Removes-total r)
Removes-total (beside r) = omega (arith, Removes-total r)

eligible_blocks :
    (bt : ℕ) (rejected : List ℕ) (v : Node) (kids : Children)
    → Aligned bt kids
    → IsEligible rejected v kids
    → 0 < length v.blocks
eligible_blocks bt rejected v end a h = absurd h
eligible_blocks bt rejected v (child key n below rest) (e, some_block, l, r) (inl (m, f)) =
    subst (λ (n : Node). 0 < length n.blocks) f some_block
eligible_blocks bt rejected v (child key n below rest) (e, some_block, l, r) (inr (inl h)) =
    eligible_blocks bt rejected v below l h
eligible_blocks bt rejected v (child key n below rest) (e, some_block, l, r) (inr (inr h)) =
    eligible_blocks bt rejected v rest r h

pub eligible_unpinned :
    (rejected : List ℕ) (v : Node) (kids : Children) → IsEligible rejected v kids → v.lock_count ≡ 0
eligible_unpinned rejected v end h = absurd h
eligible_unpinned rejected v (child key n end rest) (inl (m, f)) =
    ap (λ (n : Node). n.lock_count) (sym f) ∙ m.0
eligible_unpinned rejected v (child key n (child k o b r) rest) (inl (m, f)) = absurd m
eligible_unpinned rejected v (child key n below rest) (inr (inl h)) =
    eligible_unpinned rejected v below h
eligible_unpinned rejected v (child key n below rest) (inr (inr h)) =
    eligible_unpinned rejected v rest h

-- `less` is `kids` after any number of leaves went, each of which had no pin when it went.
pub data Pruned : Children → Children → Type 0 where
  as_it_was : {kids : Children} → Pruned kids kids
  leaf_gone :
      {v : Node} {kids mid less : Children}
      → Removes v kids mid
      → v.lock_count ≡ 0
      → Pruned mid less
      → Pruned kids less

-- What `evict` leaves, from `freed` blocks on: each block it counts was the tree's.
pub record Evicted (held : ℕ → ℕ) (t : Tree) (freed f : ℕ) (q : Pool) (u : Tree) : Type 0 where
  pub sound : Sound held q u
  pub pruned : Pruned t.children u.children
  pub exact : total u.children + f ≡ total t.children + freed
  pub same_tokens : u.block_tokens ≡ t.block_tokens
  pub same_next : u.next_ptr ≡ t.next_ptr

-- The rounds that are left end so, from any state with a measure below the fuel.
abbrev LoopEnds : ℕ → ℕ → (ℕ → ℕ) → Type 0
LoopEnds fuel num held =
    (p : Pool) (t : Tree) (freed : ℕ) (rejected : List ℕ)
    → Sound held p t
    → num - freed + open_nodes rejected t.children < fuel
    → Returns (λ (f, q, u). Evicted held t freed f q u) (evict_loop fuel num freed rejected p t)

module _ (fuel num : ℕ) (held : ℕ → ℕ) (rounds : LoopEnds fuel num held) (p : Pool) (t : Tree)
    (freed : ℕ) (rejected : List ℕ) (s : Sound held p t)
    (measure : num - freed + open_nodes rejected t.children < suc fuel) (less : freed < num) where
  reject_round :
      (v : Node)
      → IsEligible rejected v t.children
      → Returns
          (λ (f, q, u). Evicted held t freed f q u)
          (evict_loop fuel num freed (v.ptr ∷ rejected) p t)
  reject_round v h =
      rounds p t freed (v.ptr ∷ rejected) s (omega (arith, open_nodes-less rejected v t.children h))

  drop_round :
      (v : Node)
      → IsEligible rejected v t.children
      → Single p v.blocks
      → Returns
          (λ (f, q, u). Evicted held t freed f q u)
          (drop_leaf p t v >>= (λ (reclaimed, q, u).
            guard (ltb 0 reclaimed) assertion
            >> evict_loop fuel num (freed + reclaimed) rejected q u))
  drop_round v h single =
      let ((f, q, u), e, d) = drop_leaf-Dropped s rejected v h single in
      let some_block = eligible_blocks t.block_tokens rejected v t.children s.formed.aligned h in
      let freed_some : ltb 0 f ≡ true = ground (arith, d.freed_all) in
      let fewer = Removes-open_nodes rejected d.removes in
      let ((g, r, w), i, x) =
        rounds q u (freed + f) rejected d.sound (omega (arith, d.freed_all)) in
      (
        (g, r, w),
        rw (e, freed_some) i,
        record {
          sound = x.sound;
          pruned = leaf_gone d.removes (eligible_unpinned rejected v t.children h) x.pruned;
          exact = omega (arith, x.exact, Removes-total d.removes, d.freed_all);
          same_tokens = x.same_tokens ∙ d.same_tokens;
          same_next = x.same_next ∙ d.same_next;
        },
      )

  evict_round :
      (o : Option Node)
      → find_lru_leaf t rejected ≡ o
      → Chosen rejected t.children o
      → Returns
          (λ (f, q, u). Evicted held t freed f q u)
          (evict_loop (suc fuel) num freed rejected p t)
  unfolding evict_loop tree_is_sole_owner
  evict_round none e chosen =
      let more : ltb freed num ≡ true = ground arith in
      (
        (freed, p, t),
        rw (more, e) refl,
        record {
          sound = s;
          pruned = as_it_was;
          exact = refl;
          same_tokens = refl;
          same_next = refl;
        },
      )
  evict_round (some v) e (h, oldest) =
      let more : ltb freed num ≡ true = ground arith in
      let r = erase_node-Removes t.block_tokens t.next_ptr rejected v t.children s.formed h in
      let (sole, f, w) =
        sole_owner-Single s.pool v.blocks (λ k c. omega (arith, s.owned k, Removes-stored k r)) in
      elim (Bool-cases sole) [
        | inl y ↦ let (x, i, z) = drop_round v h (w y) in (x, rw (more, e, f, y) i, z)
        | inr n ↦ let (x, i, z) = reject_round v h in (x, rw (more, e, f, n) i, z)
      ]

evict_loop-Evicted : (fuel num : ℕ) (held : ℕ → ℕ) → LoopEnds fuel num held
unfolding evict_loop
evict_loop-Evicted zero num held p t freed rejected s m = absurd (omega arith)
evict_loop-Evicted (suc fuel) num held p t freed rejected s m = elim (Bool-cases (ltb freed num)) [
  | inl less ↦
      evict_round fuel num held (evict_loop-Evicted fuel num held) p t freed rejected s m
        (ground arith) (find_lru_leaf t rejected) refl (find_lru_leaf-Chosen t rejected)
  | inr enough ↦ (
    (freed, p, t),
    rw enough refl,
    record { sound = s; pruned = as_it_was; exact = refl; same_tokens = refl; same_next = refl },
  )
]

-- Where the pool and the tree are well-formed and account for each reference, `evict` comes to an
-- end, keeps this, drops nothing but leaves that have no pin when they go, and returns the number of
-- block references that left the tree with them.
pub evict-Evicted :
    {held : ℕ → ℕ} {p : Pool} {t : Tree} (s : Sound held p t) (num : ℕ)
    → Returns (λ (f, q, u). Evicted held t 0 f q u) (evict num p t)
unfolding evict
evict-Evicted {held} {p} {t} s num =
    evict_loop-Evicted (suc (num + num_entries t.children)) num held p t 0 [] s
      (omega (arith, open_nodes-all t.children))
