-- ===== src/Manager/Serving.antt =====
-- The invariant of CacheManager.
use kvslab.Base.{ℕ, ◌+◌, ◌≡◌, refl, List, [], ◌∷◌, arith, drop, count, for_each, Returns}
use kvslab.Pool.State.{Pool}
use kvslab.Pool.Inv.{Inv}
use kvslab.Pool.Refs.{Fewer, Covered, Covered-head, Covered-tail, Fewer-cons}
use kvslab.Pool.Health.{Healthy}
use kvslab.Pool.Health.Steps.{decref-Healthy}
use kvslab.Radix.State.{Tree}
use kvslab.Radix.Steady.{Steady}
use kvslab.Manager.{Manager, Allocation, drop_fresh}
use kvslab.Pool.{drop_ref}

-- The handles that are out hold `held b` references to block `b`, and `pins p` pins of node `p`. The
-- pool, the tree and its counts are well-formed, and each reference is one of the tree's or one of a
-- handle's.
pub record Serving (held pins : ℕ → ℕ) (m : Manager) : Type 0 where
  pub healthy : Healthy m.pool
  pub steady : Steady held pins m.pool m.tree
  pub same_tokens : m.tree.block_tokens ≡ m.cfg.block_tokens

-- The blocks that a handle has a reference to.
abbrev pub fresh_blocks : Allocation → List ℕ
fresh_blocks a = drop a.cached_blocks a.blocks

-- `all` is `held` with the references of the handle.
abbrev pub HeldWith : Allocation → (ℕ → ℕ) → (ℕ → ℕ) → Type 0
HeldWith a held all = (b : ℕ) → all b ≡ held b + count b (fresh_blocks a)

pub drop_all-Healthy :
    (bs : List ℕ) (p : Pool)
    → Healthy p
    → Covered p bs
    → Returns (λ q. Healthy q × Fewer p bs q) (for_each drop_ref bs p)
unfolding drop_ref
drop_all-Healthy [] p h c = (p, refl, (h, λ k. omega arith))
drop_all-Healthy (b ∷ bs) p h c =
    let ((freed, q), e, (g, one, f)) = decref-Healthy h b (Covered-head p b bs c) in
    let (r, i, (k, fewer)) = drop_all-Healthy bs q g (Covered-tail p q b bs c one) in
    (r, rw (e, for_each) i, (k, Fewer-cons p q r b bs one fewer))

-- A pool with fewer references, and as many fewer held.
pub Steady-Fewer :
    {held all pins : ℕ → ℕ} {p : Pool} {t : Tree} (s : Steady all pins p t) (q : Pool) (bs : List ℕ)
    → Inv q q.jobs
    → Fewer p bs q
    → ((b : ℕ) → all b ≡ held b + count b bs)
    → Steady held pins q t
Steady-Fewer s q bs v fewer e = record {
  sound = record {
    pool = v;
    formed = s.sound.formed;
    owned = λ b. omega (arith, s.sound.owned b, fewer b, e b);
    some_tokens = s.sound.some_tokens;
  };
  counted = s.counted;
  present = s.present;
}

-- The handle's references are given back.
pub drop_fresh-Steady :
    {held all pins : ℕ → ℕ} {p : Pool} {t : Tree} (h : Healthy p) (s : Steady all pins p t)
    (a : Allocation)
    → HeldWith a held all
    → Returns (λ q. Healthy q × Steady held pins q t × Fewer p (fresh_blocks a) q) (drop_fresh p a)
unfolding drop_fresh
drop_fresh-Steady {p} h s a e =
    let (q, f, (g, fewer)) =
      drop_all-Healthy (fresh_blocks a) p h (λ b. omega (arith, s.sound.owned b, e b)) in
    (q, f, (g, Steady-Fewer s q (fresh_blocks a) g.inv fewer e, fewer))
