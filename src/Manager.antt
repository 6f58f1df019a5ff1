-- ===== src/Manager.antt =====
-- CacheManager (src/cache_manager.cpp, include/kvslab/cache_manager.hpp): the constructors, the
-- handle `Allocation`, `release` and `maintain`. `acquire` is in Manager/Acquire.antt.
--
-- A handle is a value that its operations return anew; `owner_` is whether it is not null, as there is
-- one manager. The vector `victims_` is cleared before each use, so it is no part of the state.
pub mod Acquire
pub mod Serving
pub mod Start
pub mod Handle
pub mod Maintain
pub mod Release
pub mod System
pub mod Teardown
use kvslab.Base.{
  ℕ, zero, suc, ◌+◌, ◌-◌, ◌*◌, ◌/◌, ◌%◌, ◌^◌, ◌≤◌, ◌<◌, min, ◌≡◌, refl, sym, ap, ◌∙◌, ◌≢◌, ◌↔◌, ◌⊎◌,
  inl, inr, Bool, true, false, ◌&&◌, ◌||◌, not, Option, none, some, List, [], ◌∷◌, ◌++◌, arith, ltb,
  leb, ◌==◌, if◌then◌else◌, u32, u64, sub32, sub64, Bool-cases, Option-cases, length, get_elem?,
  set, take, drop, replicate, is_empty, count, list_eq, length-append, length-set, get_elem?-lt,
  get_elem?_of_lt, get_elem?-set_self, get_elem?-set_ne, get_elem?-set, get_elem?-append_one,
  take-append-drop, length-take, length-drop, length-replicate, list_eq→eq, list_eq_self, Error,
  bad_alloc, invalid_argument, fatal, assertion, undefined, out_of_fuel, Result, ok, err, ◌>>=◌,
  ◌>>◌, guard, at, for_each, at-some, Returns, Returns-bind, Returns-at, bind-inv, at-inv, ok-inj,
  guard-inv,
}
use kvslab.Types.{CacheConfig}
use kvslab.Tier.{Bytes}
use kvslab.Pool.State.{Pool, TierSpec}
use kvslab.Pool.{decref, num_free, block_tier, drop_ref}
use kvslab.Pool.Setup.{init, init_owned}
use kvslab.Pool.Queue.{migrate_async, drain_migrations, pending_departures}
use kvslab.Radix.State.{Tree, empty_tree}
use kvslab.Radix.Insert.{insert}
use kvslab.Radix.Pin.{unlock}
use kvslab.Radix.Evict.{pick_demotion_victims}

pub record Stats : Type 0 where
  pub requests : ℕ
  pub served : ℕ
  pub total_tokens : ℕ
  pub hit_tokens : ℕ
  pub evicted_blocks : ℕ
  pub demoted_blocks : ℕ
  pub background_demotions : ℕ
  pub promoted_blocks : ℕ
  pub alloc_failures : ℕ
  pub abandoned : ℕ

pub record Options : Type 0 where
  pub spill_watermark : ℕ
  pub async_promotion : Bool

pub record Manager : Type 0 where
  pub cfg : CacheConfig
  pub pool : Pool
  pub tree : Tree
  pub stats : Stats
  pub options : Options

pub record Allocation : Type 0 where
  pub ok : Bool
  pub cached_tokens : ℕ
  pub cached_blocks : ℕ
  pub blocks : List ℕ
  pub pinned : Option ℕ
  pub owned : Bool

-- `Allocation{}`, and what `disarm` leaves.
abbrev pub no_allocation : Allocation
no_allocation = record {
  ok = false;
  cached_tokens = 0;
  cached_blocks = 0;
  blocks = [];
  pinned = none;
  owned = false;
}

abbrev pub no_stats : Stats
no_stats = record {
  requests = 0;
  served = 0;
  total_tokens = 0;
  hit_tokens = 0;
  evicted_blocks = 0;
  demoted_blocks = 0;
  background_demotions = 0;
  promoted_blocks = 0;
  alloc_failures = 0;
  abandoned = 0;
}

abbrev pub no_options : Options
no_options = record { spill_watermark = 0; async_promotion = false }

-- The constructors, over a pool that they have made.
unfoldable pub with_pool : CacheConfig → Options → Pool → Result Manager
with_pool cfg options pool = do
  tree ← empty_tree cfg.block_tokens
  ok (record { cfg = cfg; pool = pool; tree = tree; stats = no_stats; options = options })

pub single_tier : ℕ → Bytes → Option Bytes → CacheConfig → Result Manager
single_tier threads raw memory cfg = do
  pool ← init_owned threads raw memory cfg
  with_pool cfg no_options pool

unfoldable pub tiered : ℕ → Bytes → List TierSpec → CacheConfig → Options → Result Manager
tiered threads raw specs cfg options = do
  pool ← init threads raw specs cfg
  with_pool cfg options pool

-- The loop over `blocks` from `cached_blocks` on.
unfoldable pub drop_fresh : Pool → Allocation → Result Pool
drop_fresh p a = for_each drop_ref (drop a.cached_blocks a.blocks) p

unfoldable pub abandon : Manager → Allocation → Result (Allocation × Manager)
abandon m a = do
  pool ← drop_fresh m.pool a
  tree ← unlock m.tree a.pinned
  ok (
    no_allocation,
    record m {
      pool = pool;
      tree = tree;
      stats = record m.stats { abandoned = u64 (m.stats.abandoned + 1) };
    },
  )

-- `if (ok && owner_ != nullptr) owner_->abandon(*this);`
unfoldable pub abandon_live : Manager → Allocation → Result (Allocation × Manager)
abandon_live m a = if a.ok && a.owned then abandon m a else ok (a, m)

-- The destructor.
unfoldable pub destroy : Manager → Allocation → Result Manager
destroy m a = do (b, n) ← abandon_live m a; ok n

-- The move constructor: the new handle, and the one that was moved from.
unfoldable pub move_construct : Allocation → Allocation × Allocation
move_construct other = (other, no_allocation)

-- The move assignment to handle `i` of a list from handle `k`, which may be the same: the handles after
-- it, and the manager.
unfoldable pub move_assign : Manager → List Allocation → ℕ → ℕ → Result (List Allocation × Manager)
move_assign m hs i k = if i == k then ok (hs, m) else (do
  this ← at hs i
  other ← at hs k
  (b, n) ← abandon_live m this
  ok (set (set hs i other) k no_allocation, n))

-- `for (BlockId id : blocks) if (block_tier(id) != 0) return false;`
unfoldable pub all_in_compute : Pool → List ℕ → Result Bool
all_in_compute p [] = ok true
all_in_compute p (b ∷ bs) =
    let rest = all_in_compute p bs in
    block_tier p b >>= (λ tier. if tier == 0 then rest else ok false)

unfoldable pub ready : Manager → Allocation → Result (Bool × Manager)
ready m a =
    if a.ok && a.owned
    then (do
      pool ← drain_migrations m.pool
      landed ← all_in_compute pool a.blocks
      ok (landed, record m { pool = pool }))
    else ok (true, m)

-- The loop of `maintain` over the victims, with the number of demotions that it starts.
unfoldable pub demote_later : ℕ → List ℕ → Pool → Result (ℕ × Pool)
demote_later started [] p = ok (started, p)
demote_later started (b ∷ bs) p = do
  (moved, q) ← migrate_async p b 1
  if moved then demote_later (u64 (started + 1)) bs q else ok (started, q)

-- The rest of `maintain` once the headroom is too small.
unfoldable pub demote_for : Manager → ℕ → Result Manager
demote_for m projected = do
  (n, victims) ← pick_demotion_victims m.pool m.tree (m.options.spill_watermark - projected) []
  (started, pool) ← demote_later m.stats.background_demotions victims m.pool
  ok (record m { pool = pool; stats = record m.stats { background_demotions = started } })

unfoldable pub maintain : Manager → Result Manager
maintain m = if ltb (length m.pool.tiers) 2 || m.options.spill_watermark == 0 then ok m else (do
  free ← num_free m.pool
  departing ← pending_departures m.pool 0
  let projected = u64 (free + departing)
  if leb m.options.spill_watermark projected then ok m else demote_for m projected)

-- The rest of `release` for a handle that is `ok`.
unfoldable pub release_live : Manager → List ℕ → Allocation → Result (Allocation × Manager)
release_live m tokens a = do
  (adopted, pool, tree) ← insert m.pool m.tree tokens a.blocks
  pool ← drop_fresh pool a
  tree ← unlock tree a.pinned
  pool ← drain_migrations pool
  n ← maintain (record m { pool = pool; tree = tree })
  ok (no_allocation, n)

unfoldable pub release : Manager → List ℕ → Allocation → Result (Allocation × Manager)
release m tokens a = if a.ok then release_live m tokens a else ok (a, m)
