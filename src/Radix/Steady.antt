-- ===== src/Radix/Steady.antt =====
-- The state that the cache keeps between two requests: a sound pool and tree, and pins that are
-- counted. Each operation of the tree keeps it.
use kvslab.Base.{
  ℕ, ◌+◌, ◌*◌, ◌/◌, ◌^◌, ◌<◌, ◌≡◌, refl, sym, ap, ◌∙◌, inl, inr, false, Option, none, some, List,
  arith, ◌==◌, if◌then◌else◌, Bool-cases, length, take, Returns,
}
use mathlib.Core.Path.{subst, fun_ext}
use kvslab.Pool.State.{Pool}
use kvslab.Radix.State.{Node, Children, end, Tree, common, tick}
use kvslab.Radix.WellFormed.{nodes_at}
use kvslab.Radix.WellFormed.Match.{split_node-nodes_at, match_walk-nodes_at}
use kvslab.Radix.WellFormed.Insert.{insert_walk-Makes}
use kvslab.Radix.Sound.{Sound}
use kvslab.Radix.Sound.Steps.{match_prefix-Sound, insert-Sound}
use kvslab.Radix.Match.{stop, end_inside, go_through, match_walk, match_prefix, or_node}
use kvslab.Radix.Match.Induction.{match_walk-ind}
use kvslab.Radix.Insert.{insert, insert_limit}
use kvslab.Radix.Insert.Adopt.{Held, CountsOnly}
use kvslab.Radix.Evict.{evict}
use kvslab.Radix.Evict.Loop.{Evicted, evict-Evicted}
use kvslab.Radix.Pin.{walk_up, lock, unlock}
use kvslab.Radix.Pin.Count.{
  weight, Counted, SameNodes, SameNodes-refl, has-present, OneMore, pin-Counted, unpin-Counted,
}
use kvslab.Radix.Pin.Kept.{match_walk-KeepsPins, insert_walk-KeepsPins, Pruned-KeepsPins}
use kvslab.Radix.Pin.Same.{SameNodes-nodes_at, SameNodes-stored, SameNodes-WellFormed}

-- `held b` references to block `b` are not the tree's, and node `p` has `pins p` pins.
pub record Steady (held pins : ℕ → ℕ) (p : Pool) (t : Tree) : Type 0 where
  pub sound : Sound held p t
  pub counted : Counted pins t.children
  pub present : (q : ℕ) → 0 < pins q → nodes_at q t.children ≡ 1

-- An address that no node has is not pinned.
pub unused_pin :
    {held pins : ℕ → ℕ} {p : Pool} {t : Tree} (s : Steady held pins p t) (q : ℕ)
    → nodes_at q t.children ≡ 0
    → pins q ≡ 0
unused_pin s q e = ground (arith, s.present q)

-- The node that the walk returns is in the map that it leaves.
found-present :
    (bt fresh : ℕ) (kids : Children) (ts : List ℕ) (clock : ℕ)
    → let w = match_walk bt fresh kids ts clock in
      (q : ℕ) → w.node ≡ some q → 0 < nodes_at q w.children
unfolding stop end_inside go_through nodes_at
found-present bt fresh =
    match_walk-ind bt fresh
      (λ kids ts clock w. (q : ℕ) → w.node ≡ some q → 0 < nodes_at q w.children)
      (λ kids ts clock q e. absurd cc)
      (λ key n below rest ts clock e some_c less q f.
        let same : fresh ≡ q = cc in
        ground (
          arith,
          split_node-nodes_at q bt (common bt n ts) fresh (tick clock) key n below end rest,
        ))
      (λ key n below rest ts clock w ih q e.
        last n (nodes_at q w.children) (nodes_at q rest) w.node q e (ih q))
      (λ key n below rest ts clock w ih q e. omega (arith, ih q e))
  where
    last :
        (n : Node) (x y : ℕ) (o : Option ℕ) (q : ℕ)
        → or_node o n.ptr ≡ some q
        → (o ≡ some q → 0 < x)
        → 0 < (if n.ptr == q then 1 else 0) + (x + y)
    last n x y none q e h = let same : n.ptr ≡ q = cc in ground arith
    last n x y (some r) q e h = omega (arith, h e)

-- `match_prefix` keeps the state, and the node that it returns can be pinned.
pub match_prefix-Steady :
    {held pins : ℕ → ℕ} {p : Pool} {t : Tree} (s : Steady held pins p t) (ts : List ℕ)
    → let (found, u) = match_prefix t ts in
      Steady held pins p u × ((q : ℕ) → found.node ≡ some q → nodes_at q u.children ≡ 1)
unfolding match_prefix
match_prefix-Steady {held} {pins} {p} {t} s ts =
    let after = match_prefix-Sound s.sound ts in
    let no_pin = unused_pin s t.next_ptr (s.sound.formed.unused t.next_ptr (omega arith)) in
    let (counted, same) =
      match_walk-KeepsPins pins t.block_tokens t.next_ptr no_pin t.children ts t.clock s.counted in
    (
      record {
        sound = after;
        counted = counted;
        present = λ q some_pin. ground (
          arith,
          s.present q some_pin,
          after.formed.distinct q,
          match_walk-nodes_at q t.block_tokens t.next_ptr t.children ts t.clock,
        );
      },
      λ q e. omega (
        arith,
        after.formed.distinct q,
        found-present t.block_tokens t.next_ptr t.children ts t.clock q e,
      ),
    )

-- `evict` keeps the state, comes to an end, and counts the block references that leave the tree.
pub evict-Steady :
    {held pins : ℕ → ℕ} {p : Pool} {t : Tree} (s : Steady held pins p t) (num : ℕ)
    → Returns (λ (f, q, u). Steady held pins q u × Evicted held t 0 f q u) (evict num p t)
evict-Steady {held} {pins} {p} {t} s num =
    let ((f, q, u), e, x) = evict-Evicted s.sound num in
    let (counted, kept) = Pruned-KeepsPins pins x.pruned s.counted in
    (
      (f, q, u),
      e,
      (
        record {
          sound = x.sound;
          counted = counted;
          present = λ k some_pin. kept k some_pin ∙ s.present k some_pin;
        },
        x,
      ),
    )

-- `lock` and `unlock` of no node, and of the node that has the pin.
abbrev pub PinOf : Option ℕ → (ℕ → ℕ) → (ℕ → ℕ) → Type 0
PinOf none a b = (k : ℕ) → b k ≡ a k
PinOf (some q) a b = OneMore q a b

-- The tree with a map of the same nodes is as sound as it was.
with_SameNodes :
    {held : ℕ → ℕ} {p : Pool} {t : Tree} (s : Sound held p t) (kids : Children)
    → SameNodes t.children kids
    → Sound held p (record t { children = kids })
with_SameNodes {held} {p} {t} s kids same = record {
  pool = s.pool;
  formed = SameNodes-WellFormed t.block_tokens t.next_ptr t.children kids same s.formed;
  owned = λ b. omega (arith, s.owned b, SameNodes-stored b t.children kids same);
  some_tokens = s.some_tokens;
}

not_root_ptr :
    {held : ℕ → ℕ} {p : Pool} {t : Tree}
    → Sound held p t
    → (q : ℕ) → nodes_at q t.children ≡ 1
    → (q == 0) ≡ false
not_root_ptr {held} {p} {t} s q there = elim (Bool-cases (q == 0)) [
  | inr node ↦ node
  | inl root ↦
      let zero_ptr : q ≡ 0 = ground arith in
      absurd
        (omega (arith, there, s.formed.not_root, ap (λ (x : ℕ). nodes_at x t.children) zero_ptr))
]

pinned_after :
    (a b : ℕ → ℕ) (kids : Children) (q : ℕ)
    → OneMore q a b
    → ((k : ℕ) → 0 < a k → nodes_at k kids ≡ 1)
    → nodes_at q kids ≡ 1
    → (k : ℕ) → 0 < b k
    → nodes_at k kids ≡ 1
pinned_after a b kids q e present there k some_pin = elim (Bool-cases (k == q)) [
  | inl same ↦ let f : k ≡ q = ground arith in ap (λ (x : ℕ). nodes_at x kids) f ∙ there
  | inr other ↦ present k (ground (arith, e k))
]

module _ {held a b : ℕ → ℕ} {p : Pool} {t : Tree} where
  -- What is not pinned at a node does not matter to the counts.
  same_pins : Steady held a p t → ((k : ℕ) → b k ≡ a k) → Steady held b p t
  same_pins s e = subst (λ (pins : ℕ → ℕ). Steady held pins p t) (sym (fun_ext e)) s

  -- `lock` of a node of the tree does not fail, and pins it once more.
  pub lock-Steady :
      (node : Option ℕ)
      → PinOf node a b
      → Steady held a p t
      → ((q : ℕ) → node ≡ some q → nodes_at q t.children ≡ 1)
      → weight b t.children < 2 ^ 32
      → Returns
          (λ u.
            Steady held b p u × SameNodes t.children u.children × (u.block_tokens ≡ t.block_tokens))
          (lock t node)
  unfolding lock walk_up
  lock-Steady none e s there fit = (t, refl, (same_pins s e, SameNodes-refl t.children, refl))
  lock-Steady (some q) e s there fit =
      let here = there q refl in
      let (kids, f, (counted, same)) = pin-Counted q a b e t.children here fit s.counted in
      (
        record t { children = kids },
        rw (not_root_ptr s.sound q here, has-present q t.children (omega (arith, here)), f) refl,
        (
          record {
            sound = with_SameNodes s.sound kids same;
            counted = counted;
            present = λ k some_pin.
                SameNodes-nodes_at k t.children kids same
                ∙ pinned_after a b t.children q e s.present here k some_pin;
          },
          same,
          refl,
        ),
      )

  -- `unlock` of the node that has a pin does not fail, and takes the pin off.
  pub unlock-Steady :
      (node : Option ℕ)
      → PinOf node a b
      → Steady held b p t
      → Returns
          (λ u.
            Steady held a p u × SameNodes t.children u.children × (u.block_tokens ≡ t.block_tokens))
          (unlock t node)
  unfolding unlock walk_up
  unlock-Steady none e s =
      let back : b ≡ a = fun_ext e in
      (
        t,
        refl,
        (subst (λ (pins : ℕ → ℕ). Steady held pins p t) back s, SameNodes-refl t.children, refl),
      )
  unlock-Steady (some q) e s =
      let here = s.present q (ground (arith, e q)) in
      let (kids, f, (counted, same)) = unpin-Counted q a b e t.children here s.counted in
      (
        record t { children = kids },
        rw (not_root_ptr s.sound q here, has-present q t.children (omega (arith, here)), f) refl,
        (
          record {
            sound = with_SameNodes s.sound kids same;
            counted = counted;
            present = λ k some_pin.
                SameNodes-nodes_at k t.children kids same ∙ s.present k (omega (arith, e k));
          },
          same,
          refl,
        ),
      )

-- `insert` keeps the state.
pub insert-Steady :
    {held pins : ℕ → ℕ} {p : Pool} {t : Tree} (s : Steady held pins p t) (ts bs : List ℕ)
    → length bs * t.block_tokens < 2 ^ 64
    → Held (length bs) p bs
    → Returns
        (λ (n, q, u). Steady held pins q u × (u.block_tokens ≡ t.block_tokens) × CountsOnly p q)
        (insert p t ts bs)
insert-Steady {held} {pins} {p} {t} s ts bs lt h =
    let bt = t.block_tokens in
    let limit = insert_limit bt ts bs in
    let ((n, q, u), e, (x, same, kids, only)) = insert-Sound s.sound ts bs lt h in
    let no_pin = unused_pin s t.next_ptr (s.sound.formed.unused t.next_ptr (omega arith)) in
    let next_no_pin =
      unused_pin s (t.next_ptr + 1) (s.sound.formed.unused (t.next_ptr + 1) (omega arith)) in
    let (counted, w) =
      insert_walk-KeepsPins pins bt t.next_ptr no_pin next_no_pin t.children (take limit ts)
        (take (limit / bt) bs) t.clock s.counted in
    (
      (n, q, u),
      e,
      (
        record {
          sound = x;
          counted = subst (Counted pins) (sym kids) counted;
          present = λ k some_pin. ground (
            arith,
            s.present k some_pin,
            x.formed.distinct k,
            ap (nodes_at k) kids,
            insert_walk-Makes k bt t.next_ptr t.children (take limit ts) (take (limit / bt) bs)
                t.clock,
          );
        },
        same,
        only,
      ),
    )
