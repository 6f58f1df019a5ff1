-- ===== src/Manager/Release.antt =====
-- `release` keeps the invariant.
use kvslab.Radix.WellFormed.{stored}
use kvslab.Radix.Pin.Same.{SameNodes-stored}
use kvslab.Radix.Insert.Given.{insert-stored}
use kvslab.Base.{
  ℕ, ◌*◌, ◌^◌, ◌≤◌, ◌<◌, ◌≡◌, refl, sym, ap, ◌∙◌, true, List, arith, if◌then◌else◌, length,
  get_elem?, count, ok, Returns,
}
use mathlib.Core.Path.{subst}
use kvslab.Pool.State.{Pool}
use kvslab.Pool.Refs.{or_zero}
use kvslab.Pool.Queue.{drain_migrations}
use kvslab.Pool.Inv.{Inv}
use kvslab.Pool.Health.{Healthy, SameTiers, SameTiers-refl}
use kvslab.Pool.Health.Steps.{Healthy-tiers}
use kvslab.Pool.Health.Drain.{drain-Healthy}
use kvslab.Radix.State.{Tree}
use kvslab.Radix.Insert.Adopt.{Held, CountsOnly}
use kvslab.Radix.Pin.Anchor.{SameWay, SameWays, SameWay-trans, SameNodes-SameWay, insert-SameWay}
use kvslab.Radix.Pin.Hold.{PinOf-more}
use kvslab.Radix.Steady.{Steady, PinOf, insert-Steady, unlock-Steady}
use kvslab.Manager.{Manager, Allocation, no_allocation, release, release_live}
use kvslab.Manager.Serving.{Serving, HeldWith, drop_fresh-Steady}
use kvslab.Manager.Maintain.{SameRefs, Steady-same, maintain-Serving, maintain-tree}

-- After a drain each block has its references.
pub drain-Steady :
    {held pins : ℕ → ℕ} {p : Pool} {t : Tree} (h : Healthy p) (s : Steady held pins p t)
    → Returns
        (λ q. Healthy q × Steady held pins q t × (length q.tiers ≡ length p.tiers) × SameRefs p q)
        (drain_migrations p)
drain-Steady {p} h s =
    let (q, e, (g, len, d)) = drain-Healthy h in
    let same : SameRefs p q = λ b. ap (λ (rs : List ℕ). or_zero (get_elem? rs b)) d.refcount in
    (q, e, (g, Steady-same s q g.inv same, len, same))

CountsOnly-Healthy : {p q : Pool} (h : Healthy p) → Inv q q.jobs → CountsOnly p q → Healthy q
CountsOnly-Healthy {p} h v only =
    Healthy-tiers h v (ap (λ (x : Pool). x.cfg) only)
      (subst (SameTiers p.tiers) (sym (ap (λ (x : Pool). x.tiers) only)) (SameTiers-refl p.tiers))
      (ap (λ (x : Pool). x.jobs) only) (ap (λ (x : Pool). x.migrating) only)
      (ap (λ (x : Pool). x.next_unclaimed) only) (ap (λ (x : Pool). x.workers) only)

-- `release` of a handle that is out, past its first test.
release_live-Serving :
    {held all pins pinned : ℕ → ℕ} {m : Manager} (s : Serving all pinned m) (tokens : List ℕ)
    (a : Allocation)
    → HeldWith a held all
    → PinOf a.pinned pins pinned
    → length a.blocks * m.tree.block_tokens < 2 ^ 64
    → Held (length a.blocks) m.pool a.blocks
    → Returns
        (λ (b, n).
          Serving held pins n
          × (b ≡ no_allocation)
          × SameWays pins m.tree n.tree
          × ((k : ℕ) → count k a.blocks ≡ 0 → stored k n.tree.children ≤ stored k m.tree.children))
        (release_live m tokens a)
unfolding release_live
release_live-Serving {held} {all} {pins} {pinned} {m} s tokens a e f lt room =
    let ((adopted, p1, t1), g1, (s1, bt1, only)) = insert-Steady s.steady tokens a.blocks lt room in
    let (p2, g2, (h2, s2, fewer)) =
      drop_fresh-Steady (CountsOnly-Healthy s.healthy s1.sound.pool only) s1 a e in
    let (t2, g3, (s3, same, bt2)) = unlock-Steady a.pinned f s2 in
    let (p3, g4, (h4, s4, len, refs_same)) = drain-Steady h2 s3 in
    let served : Serving held pins (record m { pool = p3; tree = t2 }) = record {
      healthy = h4;
      steady = s4;
      same_tokens = bt2 ∙ bt1 ∙ s.same_tokens;
    } in
    let (n, g5, (s5, kept)) = maintain-Serving served in
    let tree : n.tree ≡ t2 = maintain-tree (record m { pool = p3; tree = t2 }) g5 in
    let ways : SameWays pins m.tree n.tree = λ q some_pin.
      subst (λ (u : Tree). SameWay q m.tree.children u.children) (sym tree)
        (SameWay-trans q m.tree.children t1.children t2.children
          (insert-SameWay s.steady q (PinOf-more a.pinned pins pinned q f some_pin) tokens a.blocks
            adopted p1 t1 g1)
          (SameNodes-SameWay q t1.children t2.children same)) in
    let fewer : (k : ℕ)
        → count k a.blocks ≡ 0
        → stored k n.tree.children ≤ stored k m.tree.children =
      λ k no_k. omega (
        arith,
        insert-stored m.pool m.tree tokens a.blocks g1 k no_k,
        SameNodes-stored k t1.children t2.children same,
        ap (λ (u : Tree). stored k u.children) tree,
      ) in
    ((no_allocation, n), rw (g1) (rw (g2, g3, g4, g5) refl), (s5, refl, ways, fewer))

-- `release` of a handle that is out, whose blocks are in use with room for references in their counts,
-- does not fail and disarms it. It keeps the invariant for the other handles: the handle's references
-- and its pin are gone, and what stays is the tree's. For each other pinned node the way to it has the
-- same blocks, and the tree refers to no block more often that is not in the handle's table.
pub release-Serving :
    {held all pins pinned : ℕ → ℕ} {m : Manager} (s : Serving all pinned m) (tokens : List ℕ)
    (a : Allocation)
    → a.ok ≡ true
    → HeldWith a held all
    → PinOf a.pinned pins pinned
    → length a.blocks * m.tree.block_tokens < 2 ^ 64
    → Held (length a.blocks) m.pool a.blocks
    → Returns
        (λ (b, n).
          Serving held pins n
          × (b ≡ no_allocation)
          × SameWays pins m.tree n.tree
          × ((k : ℕ) → count k a.blocks ≡ 0 → stored k n.tree.children ≤ stored k m.tree.children))
        (release m tokens a)
unfolding release
release-Serving {m} s tokens a live e f lt room =
    let (x, g, k) = release_live-Serving s tokens a e f lt room in
    (x, ap (λ b. if b then release_live m tokens a else ok (a, m)) live ∙ g, k)
