-- ===== src/Manager/Acquire.antt =====
-- `acquire` of CacheManager, in the order of its steps.
pub mod Room
pub mod Promote
pub mod Outcome
pub mod Fresh
pub mod Refusal
use kvslab.Base.{
  ℕ, zero, suc, ◌+◌, ◌-◌, ◌/◌, Bool, true, ◌&&◌, ◌||◌, not, List, [], ◌∷◌, ◌++◌, ltb, ◌==◌,
  if◌then◌else◌, u64, sub64, length, assertion, undefined, out_of_fuel, Result, ok, err, ◌>>=◌,
  ◌>>◌, guard, for_each,
}
use kvslab.Types.{invalid_block}
use kvslab.Pool.State.{Pool}
use kvslab.Pool.{allocate, num_free, block_tier, migrating?, migrate, cancel_migration}
use kvslab.Pool.Queue.{migrate_async, migration_target, drain_migrations}
use kvslab.Radix.Match.{match_prefix}
use kvslab.Radix.Pin.{lock, unlock}
use kvslab.Radix.Evict.{evict, pick_demotion_victims, total}
use kvslab.Manager.{Manager, Allocation, no_allocation, maintain}

-- A matched block that is about to leave stays.
unfoldable pub keep_here : Pool → ℕ → Result Pool
keep_here p b =
    if migrating? p b
    then (do target ← migration_target p b; if target == 0 then ok p else ok (cancel_migration p b))
    else ok p

-- `if (block_tier(id) != 0 && !migrating(id)) ++promotions;`
unfoldable pub count_promotion : Pool → ℕ → ℕ → Result ℕ
count_promotion p promotions b = do
  tier ← block_tier p b
  if tier == 0
      then ok promotions
      else (if migrating? p b then ok promotions else ok (promotions + 1))

-- The synchronous demotions, with the count of those that are done.
unfoldable pub demote_now : ℕ → List ℕ → Pool → Result (ℕ × Pool)
demote_now done [] p = ok (done, p)
demote_now done (b ∷ bs) p = do
  (moved, q) ← migrate p b 1
  if moved then demote_now (u64 (done + 1)) bs q else ok (done, q)

unfoldable pub make_room : Manager → ℕ → Result Manager
make_room m demand = do
  free ← num_free m.pool
  if ltb free demand && ltb 1 (length m.pool.tiers)
      then (do
        (n, victims) ← pick_demotion_victims m.pool m.tree (demand - free) []
        (done, pool) ← demote_now m.stats.demoted_blocks victims m.pool
        ok (record m { pool = pool; stats = record m.stats { demoted_blocks = done } }))
      else ok m

-- The loop of evictions, for `fuel` rounds.
unfoldable pub evict_rounds : ℕ → Manager → ℕ → Result Manager
evict_rounds zero m demand = err out_of_fuel
evict_rounds (suc fuel) m demand = do
  free ← num_free m.pool
  if ltb free demand
      then (do
        (evicted, pool, tree) ← evict (demand - free) m.pool m.tree
        if evicted == 0
            then ok (record m { pool = pool; tree = tree })
            else evict_rounds fuel
                (record m {
                  pool = pool;
                  tree = tree;
                  stats = record m.stats {
                    evicted_blocks = u64 (m.stats.evicted_blocks + evicted);
                  };
                })
                demand)
      else ok m

-- Each round takes a block off the tree, or is the last.
unfoldable pub evict_for : Manager → ℕ → Result Manager
evict_for m demand = evict_rounds (suc (total m.tree.children)) m demand

-- The copy of a block into the compute tier, at once or by a worker.
unfoldable pub promote_copy : Bool → Pool → ℕ → Result (Bool × Pool)
promote_copy async p b =
    if async
    then (do (moved, q) ← migrate_async p b 0; if moved then ok (true, q) else migrate q b 0)
    else migrate p b 0

unfoldable pub promote : Bool → ℕ × Pool → ℕ → Result (ℕ × Pool)
promote async (promoted, p) b = do
  tier ← block_tier p b
  if (tier == 0) || migrating? p b then ok (promoted, p) else (do
    (moved, q) ← promote_copy async p b
    guard moved assertion
    ok (u64 (promoted + 1), q))

-- `fresh` calls of `allocate`, their blocks behind those of the table.
unfoldable pub allocate_fresh : ℕ → List ℕ → Pool → Result (List ℕ × Pool)
allocate_fresh zero blocks p = ok (blocks, p)
allocate_fresh (suc fresh) blocks p = do
  (id, q) ← allocate p
  guard (not (id == invalid_block)) assertion
  allocate_fresh fresh (blocks ++ id ∷ []) q

-- The slots are there: promote the matched blocks, allocate the others, and arm the handle.
unfoldable pub serve : Manager → List ℕ → Allocation → ℕ → Result (Allocation × Manager)
serve m tokens a fresh = do
  (promoted, pool) ←
      for_each (promote m.options.async_promotion) a.blocks (m.stats.promoted_blocks, m.pool)
  (blocks, pool) ← allocate_fresh fresh a.blocks pool
  n ← maintain (record m {
    pool = pool;
    stats = record m.stats {
      promoted_blocks = promoted;
      served = u64 (m.stats.served + 1);
      total_tokens = u64 (m.stats.total_tokens + length tokens);
      hit_tokens = u64 (m.stats.hit_tokens + a.cached_tokens);
    };
  })
  ok (record a { ok = true; blocks = blocks; owned = true }, n)

-- The request is refused.
unfoldable pub back_out : Manager → Allocation → Result (Allocation × Manager)
back_out m a = do
  tree ← unlock m.tree a.pinned
  ok (
    no_allocation,
    record m {
      tree = tree;
      stats = record m.stats { alloc_failures = u64 (m.stats.alloc_failures + 1) };
    },
  )

-- From the match on.
unfoldable pub acquire_matched : Manager → List ℕ → Allocation → ℕ → Result (Allocation × Manager)
acquire_matched m tokens a need = do
  pool ← for_each keep_here a.blocks m.pool
  let fresh = sub64 need a.cached_blocks
  promotions ← for_each (count_promotion pool) a.blocks 0
  let demand = u64 (fresh + promotions)
  m1 ← make_room (record m { pool = pool }) demand
  m2 ← evict_for m1 demand
  free ← num_free m2.pool
  if ltb free demand then back_out m2 a else serve m2 tokens a fresh

unfoldable pub acquire : Manager → List ℕ → Result (Allocation × Manager)
acquire m [] = ok (
  record no_allocation { ok = true },
  record m {
    stats = record m.stats {
      requests = u64 (m.stats.requests + 1);
      served = u64 (m.stats.served + 1);
    };
  },
)
acquire m (token ∷ rest) = do
  let tokens = token ∷ rest
  let bt = m.cfg.block_tokens
  guard (not (bt == 0)) undefined
  let need = u64 (length tokens + bt - 1) / bt
  pool ← drain_migrations m.pool
  let (found, matched) = match_prefix m.tree tokens
  tree ← lock matched found.node
  let a = record no_allocation {
    cached_tokens = found.num_tokens;
    cached_blocks = length found.blocks;
    blocks = found.blocks;
    pinned = found.node;
  }
  acquire_matched
      (record m {
        pool = pool;
        tree = tree;
        stats = record m.stats { requests = u64 (m.stats.requests + 1) };
      })
      tokens a need
