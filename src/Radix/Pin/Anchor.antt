-- ===== src/Radix/Pin/Anchor.antt =====
-- The way to a pinned node stays as it is, whatever else is done to the tree.
use kvslab.Radix.Pin.Same.{NoMore}
use kvslab.Radix.Evict.Removal.{Removes-stored}
use kvslab.Base.{
  ℕ, ◌+◌, ◌*◌, ◌/◌, ◌≤◌, ◌<◌, ◌≡◌, refl, ap, ◌∙◌, ◌≢◌, inl, inr, List, arith, ltb, ◌==◌, Bool-cases,
  length, take, drop, ok, for_each, bind-inv, ok-inj,
}
use mathlib.Core.Path.{subst}
use kvslab.Pool.{incref}
use kvslab.Pool.State.{Pool}
use kvslab.Radix.State.{
  Node, Children, end, child, Tree, first_key, common, tick, split_head, split_tail, split_node,
}
use kvslab.Radix.WellFormed.{nodes_at}
use kvslab.Radix.WellFormed.Match.{count-cut}
use kvslab.Radix.Match.{stop, end_inside, go_through, match_walk, match_prefix}
use kvslab.Radix.Match.Induction.{match_walk-ind}
use kvslab.Radix.Insert.{
  cached, refuse, leaf, hang, below_head, touch_or, insert_inside, insert_through, insert_walk,
  insert_limit, insert,
}
use kvslab.Radix.Insert.Induction.{insert_walk-ind}
use kvslab.Radix.Evict.Removal.{Removes, here, under, beside}
use kvslab.Radix.Evict.Loop.{Pruned, as_it_was, leaf_gone}
use kvslab.Radix.Pin.Count.{Counted, SameNodes}
use kvslab.Radix.Pin.Same.{SameNodes-nodes_at}
use kvslab.Radix.Pin.Path.{path_count, path_count-SameNodes}
use kvslab.Radix.Pin.Kept.{Removes-unpinned, Removes-KeepsPins}
use kvslab.Radix.Steady.{Steady, unused_pin}

-- The node is there as often as before, and the nodes on the way to it have the same blocks.
abbrev pub SameWay : ℕ → Children → Children → Type 0
SameWay q kids after =
    (nodes_at q after ≡ nodes_at q kids) × ((b : ℕ) → path_count q b after ≡ path_count q b kids)

-- So it is for each node that has a pin.
abbrev pub SameWays : (ℕ → ℕ) → Tree → Tree → Type 0
SameWays pins t u = (q : ℕ) → 0 < pins q → SameWay q t.children u.children

abbrev NoWay : ℕ → Children → Type 0
NoWay q kids = (nodes_at q kids ≡ 0) × ((b : ℕ) → path_count q b kids ≡ 0)

pub SameWay-trans : (q : ℕ) (a b c : Children) → SameWay q a b → SameWay q b c → SameWay q a c
SameWay-trans q a b c (e, f) (g, h) = (g ∙ e, λ k. h k ∙ f k)

pub SameNodes-SameWay :
    (q : ℕ) (kids after : Children) → SameNodes kids after → SameWay q kids after
SameNodes-SameWay q kids after h =
    (SameNodes-nodes_at q kids after h, λ b. path_count-SameNodes q b kids after h)

module _ (q : ℕ) where
  split_node-SameWay :
      (bt c fresh now key : ℕ) (n : Node) (below hung rest : Children)
      → fresh ≢ q
      → NoWay q hung
      → SameWay q (child key n below rest) (split_node bt c fresh now n below hung rest)
  unfolding split_node split_head split_tail path_count nodes_at
  split_node-SameWay bt c fresh now key n below hung rest ne (none_at, no_way) =
      (ground (arith, none_at), λ b. ground (arith, none_at, no_way b, count-cut b c n.blocks))

  match_walk-SameWay :
      (bt fresh : ℕ)
      → fresh ≢ q
      → (kids : Children) (ts : List ℕ) (clock : ℕ)
      → SameWay q kids (match_walk bt fresh kids ts clock).children
  unfolding stop end_inside go_through path_count nodes_at
  match_walk-SameWay bt fresh ne =
      match_walk-ind bt fresh (λ kids ts clock w. SameWay q kids w.children)
        (λ kids ts clock. (refl, λ b. refl))
        (λ key n below rest ts clock e some_c less.
          split_node-SameWay bt (common bt n ts) fresh (tick clock) key n below end rest ne
            (refl, λ b. refl))
        (λ key n below rest ts clock w (e, f). (omega (arith, e), λ b. ground (arith, e, f b)))
        (λ key n below rest ts clock w (e, f). (omega (arith, e), λ b. omega (arith, f b)))

  below_head-NoWay :
      (bt c fresh : ℕ) (n : Node) (ts bs : List ℕ) (clock : ℕ)
      → fresh ≢ q
      → NoWay q (below_head bt c fresh n ts bs clock).children
  unfolding below_head hang refuse cached leaf path_count nodes_at
  below_head-NoWay bt c fresh n ts bs clock ne = elim (Bool-cases (ltb 0 (length ts))) [
    | inr empty ↦ rw (empty, below_head) (refl, λ b. refl)
    | inl some_ts ↦ elim (Bool-cases (first_key bt (split_tail bt c n).tokens == first_key bt ts)) [
      | inl same ↦ rw (some_ts, same, below_head) (refl, λ b. refl)
      | inr other ↦ rw (some_ts, other, below_head) (ground arith, λ b. ground arith)
    ]
  ]

  insert_walk-SameWay :
      (bt fresh : ℕ)
      → fresh ≢ q
      → fresh + 1 ≢ q
      → (kids : Children) (ts bs : List ℕ) (clock : ℕ)
      → SameWay q kids (insert_walk bt fresh kids ts bs clock).children
  unfolding hang refuse cached leaf insert_inside insert_through path_count nodes_at
  insert_walk-SameWay bt fresh ne next_ne =
      insert_walk-ind bt fresh (λ kids ts bs clock s. SameWay q kids s.children)
        (λ kids ts bs clock. (refl, λ b. refl)) (λ kids ts bs clock. (refl, λ b. refl))
        (λ ts bs clock some_ts. (ground arith, λ b. ground arith))
        (λ key n below rest ts bs clock e some_c less.
          let c = common bt n ts in
          let s = below_head bt c (fresh + 1) n (drop (c * bt) ts) (drop c bs) (tick clock) in
          split_node-SameWay bt c fresh (touch_or s.touched (tick clock)) key n below s.children
            rest ne
            (below_head-NoWay bt c (fresh + 1) n (drop (c * bt) ts) (drop c bs) (tick clock)
              next_ne))
        (λ key n below rest ts bs clock s (e, f). (omega (arith, e), λ b. ground (arith, e, f b)))
        (λ key n below rest ts bs clock s other (e, f). (omega (arith, e), λ b. omega (arith, f b)))

  Removes-SameWay :
      {v : Node} {kids less : Children} → Removes v kids less → v.ptr ≢ q → SameWay q kids less
  unfolding path_count nodes_at
  Removes-SameWay here ne = (ground arith, λ b. ground arith)
  Removes-SameWay (under r) ne =
      let (e, f) = Removes-SameWay r ne in (omega (arith, e), λ b. ground (arith, e, f b))
  Removes-SameWay (beside r) ne =
      let (e, f) = Removes-SameWay r ne in (omega (arith, e), λ b. omega (arith, f b))

  pub Pruned-SameWay :
      (pins : ℕ → ℕ) {kids less : Children}
      → Pruned kids less
      → Counted pins kids
      → 0 < pins q
      → SameWay q kids less
  Pruned-SameWay pins as_it_was h some_pin = (refl, λ b. refl)
  Pruned-SameWay pins (leaf_gone {v} m e rest) h some_pin =
      let no_pin = Removes-unpinned pins m e h in
      let ne : v.ptr ≢ q = λ f. absurd (omega (arith, ap pins f, no_pin, some_pin)) in
      let (i, j) = Removes-SameWay m ne in
      let (k, l) = Pruned-SameWay pins rest (Removes-KeepsPins pins m no_pin h).0 some_pin in
      (k ∙ i, λ b. l b ∙ j b)

pub Pruned-NoMore : {kids less : Children} → Pruned kids less → NoMore kids less
Pruned-NoMore as_it_was = λ b. omega arith
Pruned-NoMore (leaf_gone m e rest) = λ b. omega (arith, Removes-stored b m, Pruned-NoMore rest b)

-- A pinned node is not one that is still to be made.
new_ne :
    {held pins : ℕ → ℕ} {p : Pool} {t : Tree} (s : Steady held pins p t) (q fresh : ℕ)
    → 0 < pins q
    → t.next_ptr ≤ fresh
    → fresh ≢ q
new_ne {pins} s q fresh some_pin le e =
    absurd (omega (arith, unused_pin s fresh (s.sound.formed.unused fresh le), ap pins e, some_pin))

pub match_prefix-SameWay :
    {held pins : ℕ → ℕ} {p : Pool} {t : Tree} (s : Steady held pins p t) (q : ℕ)
    → 0 < pins q
    → (ts : List ℕ) → SameWay q t.children (match_prefix t ts).1.children
unfolding match_prefix
match_prefix-SameWay {t} s q some_pin ts =
    match_walk-SameWay q t.block_tokens t.next_ptr (new_ne s q t.next_ptr some_pin (omega arith))
      t.children ts t.clock

pub insert-SameWay :
    {held pins : ℕ → ℕ} {p : Pool} {t : Tree} (s : Steady held pins p t) (q : ℕ)
    → 0 < pins q
    → (ts bs : List ℕ) (n : ℕ) (p2 : Pool) (u : Tree) → insert p t ts bs ≡ ok (n, p2, u)
    → SameWay q t.children u.children
unfolding insert
insert-SameWay {p} {t} s q some_pin ts bs n p2 u e =
    let bt = t.block_tokens in
    let limit = insert_limit bt ts bs in
    let w = insert_walk bt t.next_ptr t.children (take limit ts) (take (limit / bt) bs) t.clock in
    let (held, f, last) = bind-inv (for_each incref w.adopted p) _ e in
    let kids : w.children ≡ u.children = ap (λ (x : ℕ × Pool × Tree). x.2.children) (ok-inj last) in
    subst (SameWay q t.children) kids (
      insert_walk-SameWay q bt t.next_ptr (new_ne s q t.next_ptr some_pin (omega arith))
        (new_ne s q (t.next_ptr + 1) some_pin (omega arith)) t.children (take limit ts)
        (take (limit / bt) bs) t.clock)
