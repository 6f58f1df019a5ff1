-- ===== src/Pool/Setup.antt =====
-- `BlockPool::init` and the constructors (src/block_pool.cpp).
pub mod Start
pub mod Ready
use kvslab.Base.{
  ℕ, zero, suc, ◌+◌, ◌-◌, ◌*◌, ◌/◌, ◌%◌, ◌^◌, ◌≤◌, ◌<◌, min, ◌≡◌, refl, sym, ap, ◌∙◌, ◌≢◌, ◌↔◌, ◌⊎◌,
  inl, inr, Bool, true, false, ◌&&◌, ◌||◌, not, Option, none, some, List, [], ◌∷◌, ◌++◌, arith, ltb,
  leb, ◌==◌, if◌then◌else◌, u32, u64, sub32, sub64, Bool-cases, Option-cases, length, get_elem?,
  set, take, drop, replicate, is_empty, count, list_eq, length-append, length-set, get_elem?-lt,
  get_elem?_of_lt, get_elem?-set_self, get_elem?-set_ne, get_elem?-set, get_elem?-append_one,
  take-append-drop, length-take, length-drop, length-replicate, list_eq→eq, list_eq_self, Error,
  bad_alloc, invalid_argument, fatal, assertion, undefined, Result, ok, err, ◌>>=◌, ◌>>◌, guard, at,
  for_each, at-some, Returns, Returns-bind, Returns-at,
}
use kvslab.Types.{CacheConfig, block_bytes, total_bytes}
use kvslab.Tier.{Tier, Bytes, host_tier}
use kvslab.Pool.State.{TierState, Pool, TierSpec}

-- `for (i = n; i > 0; --i) v.push_back(static_cast<uint32_t>(i - 1));`
unfoldable pub push_descending : ℕ → List ℕ → List ℕ
push_descending zero v = v
push_descending (suc i) v = push_descending i (u32 i ∷ v)

add_tier : CacheConfig → TierSpec → Result TierState
add_tier cfg spec = elim spec.tier [
  | none ↦ err invalid_argument
  | some t ↦ do
    guard (leb (u64 (spec.num_blocks * block_bytes cfg)) t.capacity) invalid_argument
    ok (record {
      tier = t;
      num_blocks = spec.num_blocks;
      free_slots = push_descending spec.num_blocks [];
    })
]

-- The loop of `init`: the tiers in order, and the sum of their blocks.
add_tiers : CacheConfig → List TierSpec → Result (List TierState × ℕ)
unfolding add_tier
add_tiers cfg [] = ok ([], 0)
add_tiers cfg (spec ∷ specs) = do
  t ← add_tier cfg spec
  (ts, total) ← add_tiers cfg specs
  ok (t ∷ ts, spec.num_blocks + total)

-- A pool over the tiers, with `total` blocks; `raw` is what the fresh `bounce` vector holds.
start : ℕ → Bytes → CacheConfig → List TierState → ℕ → Pool
start threads raw cfg tiers total = record {
  cfg = cfg;
  tiers = tiers;
  location = replicate total (record { tier = 0; slot = 0 });
  refcount = replicate total 0;
  free_ids = push_descending total [];
  bounce = raw;
  jobs = [];
  migrating = [];
  next_unclaimed = 0;
  workers = 0;
  hardware_threads = threads;
  next_ref = 0;
}

unfoldable pub init : ℕ → Bytes → List TierSpec → CacheConfig → Result Pool
unfolding add_tiers start
init threads raw specs cfg = do
  guard (not (is_empty specs)) invalid_argument
  (tiers, total) ← add_tiers cfg specs
  ok (start threads raw cfg tiers total)

-- The constructors that own one tier, and that borrow one.
pub init_owned : ℕ → Bytes → Option Bytes → CacheConfig → Result Pool
init_owned threads raw memory cfg = do
  t ← host_tier (total_bytes cfg) memory
  init threads raw (record { tier = some t; num_blocks = cfg.num_blocks } ∷ []) cfg

pub init_borrowed : ℕ → Bytes → Tier → CacheConfig → Result Pool
init_borrowed threads raw t cfg =
    init threads raw (record { tier = some t; num_blocks = cfg.num_blocks } ∷ []) cfg
