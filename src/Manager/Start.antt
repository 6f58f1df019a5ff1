-- ===== src/Manager/Start.antt =====
-- The constructors of CacheManager establish its invariant, and `ready` keeps it.
use kvslab.Base.{
  ℕ, ◌^◌, ◌<◌, ◌≡◌, refl, sym, ap, ◌∙◌, inl, inr, Bool, true, false, ◌&&◌, List, [], ◌∷◌, arith,
  ltb, ◌==◌, if◌then◌else◌, Bool-cases, ok, Returns, ok-inj,
}
use kvslab.Types.{CacheConfig}
use kvslab.Tier.{Bytes}
use kvslab.Pool.{block_tier}
use kvslab.Pool.State.{Pool, TierSpec}
use kvslab.Pool.Setup.Start.{AllAccepted, block_total}
use kvslab.Pool.Setup.Ready.{init-Healthy}
use kvslab.Pool.Inv.{Inv}
use kvslab.Pool.Refs.{refs, block_tier-some}
use kvslab.Pool.Health.{Healthy}
use kvslab.Radix.State.{Tree, end, empty_tree}
use kvslab.Radix.WellFormed.{nodes_at, stored}
use kvslab.Manager.{
  Options, Manager, Allocation, no_stats, with_pool, tiered, all_in_compute, ready,
}
use kvslab.Manager.Serving.{Serving}
use kvslab.Manager.Maintain.{AllUsed, AllUsed-same}
use kvslab.Manager.Release.{drain-Steady}

-- No handle is out.
abbrev pub nobody : ℕ → ℕ
nobody x = 0

with_pool-Serving :
    {p : Pool} (h : Healthy p) (cfg : CacheConfig) (options : Options)
    → ((b : ℕ) → refs p b ≡ 0)
    → 0 < cfg.block_tokens
    → Returns (λ m. Serving nobody nobody m × (m.options ≡ options)) (with_pool cfg options p)
unfolding with_pool empty_tree stored nodes_at
with_pool-Serving {p} h cfg options unused some_tokens =
    let positive : ltb 0 cfg.block_tokens ≡ true = ground arith in
    let t : Tree = record {
      block_tokens = cfg.block_tokens;
      children = end;
      root_access = 0;
      clock = 0;
      stored_blocks = 0;
      num_nodes = 0;
      collisions = 0;
      next_ptr = 1;
    } in
    (
      record { cfg = cfg; pool = p; tree = t; stats = no_stats; options = options },
      rw positive refl,
      (
        record {
          healthy = h;
          steady = record {
            sound = record {
              pool = h.inv;
              formed = record {
                started = omega arith;
                aligned = tt;
                keyed = tt;
                distinct = λ q. omega arith;
                unused = λ q le. refl;
                not_root = refl;
              };
              owned = λ b. omega (arith, unused b);
              some_tokens = some_tokens;
            };
            counted = tt;
            present = λ q some_pin. absurd (omega arith);
          };
          same_tokens = refl;
        },
        refl,
      ),
    )

-- The constructor over at least one tier, each large enough for its blocks, with fewer than 2 ^ 32 of
-- them in all and at least one token to a block, does not fail, and what it returns meets the
-- invariant with no handle out.
pub tiered-Serving :
    (threads : ℕ) (raw : Bytes) (spec : TierSpec) (specs : List TierSpec) (cfg : CacheConfig)
    (options : Options)
    → AllAccepted cfg (spec ∷ specs)
    → block_total (spec ∷ specs) < 2 ^ 32
    → 0 < cfg.block_tokens
    → Returns
        (λ m. Serving nobody nobody m × (m.options ≡ options))
        (tiered threads raw (spec ∷ specs) cfg options)
unfolding tiered
tiered-Serving threads raw spec specs cfg options a lt some_tokens =
    let (p, e, (h, unused, same)) = init-Healthy threads raw spec specs cfg a lt in
    let (m, f, k) = with_pool-Serving h cfg options unused some_tokens in (m, rw e f, k)

-- Each of the blocks is in the compute tier.
abbrev pub AllHere : Pool → List ℕ → Type 0
AllHere p [] = Unit {0}
AllHere p (b ∷ bs) = (block_tier p b ≡ ok 0) × AllHere p bs

all_in_compute-AllHere :
    (p : Pool) (v : Inv p p.jobs) (bs : List ℕ)
    → AllUsed p bs
    → Returns (λ landed. if landed then AllHere p bs else ¬ AllHere p bs) (all_in_compute p bs)
unfolding all_in_compute
all_in_compute-AllHere p v [] us = (true, refl, tt)
all_in_compute-AllHere p v (b ∷ bs) (u, us) =
    let (tier, e) = block_tier-some v.storage b u in
    elim (Bool-cases (tier == 0)) [
      | inr away ↦ (
        false,
        rw (e, away) refl,
        λ h. let same : tier ≡ 0 = ok-inj (sym e ∙ h.0) in absurd (ground arith),
      )
      | inl home ↦
          let zero_tier : tier ≡ 0 = ground arith in
          let here : block_tier p b ≡ ok 0 = e ∙ ap (λ (x : ℕ). ok x) zero_tier in
          let (landed, f, k) = all_in_compute-AllHere p v bs us in
          (landed, rw (e, home) f, with_first landed (AllHere p bs) here k)
    ]
  where
    with_first :
        (landed : Bool) {X : Type 0} (Y : Type 0)
        → X
        → (if landed then Y else ¬ Y)
        → (if landed then X × Y else ¬ (X × Y))
    with_first true Y x y = (x, y)
    with_first false Y x n = λ h. n h.1

-- `ready` of a handle that is out, whose blocks are in use, does not fail, keeps the invariant
-- and leaves the tree; it answers whether each block of the handle is then in the compute tier.
pub ready-Serving :
    {held pins : ℕ → ℕ} {m : Manager} (s : Serving held pins m) (a : Allocation)
    → a.ok && a.owned ≡ true
    → AllUsed m.pool a.blocks
    → Returns
        (λ (answer, n).
          Serving held pins n
          × (n.tree ≡ m.tree)
          × (if answer then AllHere n.pool a.blocks else ¬ AllHere n.pool a.blocks))
        (ready m a)
unfolding ready
ready-Serving {m} s a live used =
    let (p, e, (h, steady, len, same)) = drain-Steady s.healthy s.steady in
    let (answer, f, k) =
      all_in_compute-AllHere p h.inv a.blocks (AllUsed-same m.pool p a.blocks same used) in
    (
      (answer, record m { pool = p }),
      rw live (rw (e, f) refl),
      (record { healthy = h; steady = steady; same_tokens = s.same_tokens }, refl, k),
    )
