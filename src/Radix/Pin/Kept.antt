-- ===== src/Radix/Pin/Kept.antt =====
-- `match_prefix`, `insert` and `evict` leave the pins as they are.
use kvslab.Base.{
  ℕ, ◌+◌, ◌*◌, ◌<◌, ◌≡◌, refl, ap, ◌≢◌, inl, inr, List, arith, ltb, ◌==◌, Bool-cases, length, drop,
}
use kvslab.Radix.State.{
  Node, Children, end, child, first_key, common, tick, split_head, split_tail, split_node,
}
use kvslab.Radix.WellFormed.{nodes_at}
use kvslab.Radix.Match.{stop, end_inside, go_through, match_walk}
use kvslab.Radix.Match.Induction.{match_walk-ind}
use kvslab.Radix.Insert.{
  cached, refuse, leaf, hang, below_head, touch_or, insert_inside, insert_through, insert_walk,
}
use kvslab.Radix.Insert.Induction.{insert_walk-ind}
use kvslab.Radix.Evict.Removal.{Removes, here, under, beside, Removes-nodes_at}
use kvslab.Radix.Evict.Loop.{Pruned, as_it_was, leaf_gone}
use kvslab.Radix.Pin.Count.{weight, Counted}

-- The pins are as many as before, and counted as before.
abbrev pub KeepsPins : (ℕ → ℕ) → Children → Children → Type 0
KeepsPins pins kids after =
    Counted pins kids → Counted pins after × (weight pins after ≡ weight pins kids)

module _ (pins : ℕ → ℕ) where
  -- New nodes have no pin.
  split_node-KeepsPins :
      (bt c fresh now key : ℕ) (n : Node) (below hung rest : Children)
      → pins fresh ≡ 0
      → Counted pins hung
      → weight pins hung ≡ 0
      → KeepsPins pins (child key n below rest) (split_node bt c fresh now n below hung rest)
  unfolding split_node split_head split_tail weight
  split_node-KeepsPins bt c fresh now key n below hung rest no_pin k w (h, l, r) =
      ((omega (arith, h, no_pin, w), (h, l, k), r), omega (arith, no_pin, w))

  pub match_walk-KeepsPins :
      (bt fresh : ℕ)
      → pins fresh ≡ 0
      → (kids : Children) (ts : List ℕ) (clock : ℕ)
      → KeepsPins pins kids (match_walk bt fresh kids ts clock).children
  unfolding stop end_inside go_through weight
  match_walk-KeepsPins bt fresh no_pin =
      match_walk-ind bt fresh (λ kids ts clock w. KeepsPins pins kids w.children)
        (λ kids ts clock h. (h, refl))
        (λ key n below rest ts clock e some_c less.
          split_node-KeepsPins bt (common bt n ts) fresh (tick clock) key n below end rest no_pin tt
            refl)
        (λ key n below rest ts clock w ih (h, l, r).
          let (k, e) = ih l in ((omega (arith, h, e), k, r), omega (arith, e)))
        (λ key n below rest ts clock w ih (h, l, r).
          let (k, e) = ih r in ((h, l, k), omega (arith, e)))

  below_head-Counted :
      (bt c fresh : ℕ) (n : Node) (ts bs : List ℕ) (clock : ℕ)
      → pins fresh ≡ 0
      → let s = below_head bt c fresh n ts bs clock in
        Counted pins s.children × (weight pins s.children ≡ 0)
  unfolding below_head hang refuse cached leaf weight
  below_head-Counted bt c fresh n ts bs clock no_pin = elim (Bool-cases (ltb 0 (length ts))) [
    | inr empty ↦ rw (empty, below_head) (tt, refl)
    | inl some_ts ↦ elim (Bool-cases (first_key bt (split_tail bt c n).tokens == first_key bt ts)) [
      | inl same ↦ rw (some_ts, same, below_head) (tt, refl)
      | inr other ↦
          rw (some_ts, other, below_head) ((omega (arith, no_pin), tt, tt), omega (arith, no_pin))
    ]
  ]

  pub insert_walk-KeepsPins :
      (bt fresh : ℕ)
      → pins fresh ≡ 0
      → pins (fresh + 1) ≡ 0
      → (kids : Children) (ts bs : List ℕ) (clock : ℕ)
      → KeepsPins pins kids (insert_walk bt fresh kids ts bs clock).children
  unfolding hang refuse cached leaf insert_inside insert_through weight
  insert_walk-KeepsPins bt fresh no_pin next_no_pin =
      insert_walk-ind bt fresh (λ kids ts bs clock s. KeepsPins pins kids s.children)
        (λ kids ts bs clock h. (h, refl)) (λ kids ts bs clock h. (h, refl))
        (λ ts bs clock some_ts h. ((omega (arith, no_pin), tt, tt), omega (arith, no_pin)))
        (λ key n below rest ts bs clock e some_c less.
          let c = common bt n ts in
          let s = below_head bt c (fresh + 1) n (drop (c * bt) ts) (drop c bs) (tick clock) in
          let (k, w) =
            below_head-Counted bt c (fresh + 1) n (drop (c * bt) ts) (drop c bs) (tick clock)
              next_no_pin in
          split_node-KeepsPins bt c fresh (touch_or s.touched (tick clock)) key n below s.children
            rest no_pin k w)
        (λ key n below rest ts bs clock s ih (h, l, r).
          let (k, e) = ih l in ((omega (arith, h, e), k, r), omega (arith, e)))
        (λ key n below rest ts bs clock s ne ih (h, l, r).
          let (k, e) = ih r in ((h, l, k), omega (arith, e)))

  -- A leaf with the count 0 has no pin.
  pub Removes-unpinned :
      {v : Node} {kids less : Children}
      → Removes v kids less
      → v.lock_count ≡ 0
      → Counted pins kids
      → pins v.ptr ≡ 0
  unfolding weight
  Removes-unpinned here e (h, l, r) = omega (arith, h, e)
  Removes-unpinned (under m) e (h, l, r) = Removes-unpinned m e l
  Removes-unpinned (beside m) e (h, l, r) = Removes-unpinned m e r

  pub Removes-KeepsPins :
      {v : Node} {kids less : Children}
      → Removes v kids less
      → pins v.ptr ≡ 0
      → KeepsPins pins kids less
  unfolding weight
  Removes-KeepsPins here e (h, l, r) = (r, omega (arith, e))
  Removes-KeepsPins (under m) e (h, l, r) =
      let (k, f) = Removes-KeepsPins m e l in ((omega (arith, h, f), k, r), omega (arith, f))
  Removes-KeepsPins (beside m) e (h, l, r) =
      let (k, f) = Removes-KeepsPins m e r in ((h, l, k), omega (arith, f))

  -- Pruning keeps the pins, and each node that has one.
  pub Pruned-KeepsPins :
      {kids less : Children}
      → Pruned kids less
      → Counted pins kids
      → Counted pins less × ((p : ℕ) → 0 < pins p → nodes_at p less ≡ nodes_at p kids)
  Pruned-KeepsPins as_it_was h = (h, λ p some_pin. refl)
  Pruned-KeepsPins (leaf_gone {v} m e rest) h =
      let no_pin = Removes-unpinned m e h in
      let (k, f) = Pruned-KeepsPins rest (Removes-KeepsPins m no_pin h).0 in
      (k, λ p some_pin. ground (arith, f p, Removes-nodes_at p m, pin_ne v.ptr p no_pin some_pin))
    where
      pin_ne : (q p : ℕ) → pins q ≡ 0 → 0 < pins p → q ≢ p
      pin_ne q p z s e = absurd (omega (arith, ap pins e))
