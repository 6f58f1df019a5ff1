-- ===== src/Pool/State.antt =====
-- The state of BlockPool (include/kvslab/block_pool.hpp), its map and its updates in place.
--
-- The head of a list that stands for a `std::vector` is the vector's back, so `back`, `pop_back` and
-- `push_back` act on the head; `location` and `refcount` are indexed from the front. A
-- `MigrationJob*` is the job's `ref`, a number that no other job of the pool has.
use kvslab.Base.{ℕ, Bool, true, false, Option, none, some, List, [], ◌∷◌, ◌==◌, if◌then◌else◌, set}
use kvslab.Types.{CacheConfig}
use kvslab.Tier.{Tier, Bytes}

pub record Location : Type 0 where
  pub tier : ℕ
  pub slot : ℕ

pub record TierState : Type 0 where
  pub tier : Tier
  pub num_blocks : ℕ
  pub free_slots : List ℕ

-- How far a worker is with a job. `copying` and `skipping` are what it has read of `cancelled`;
-- `copied` is after `memcpy` or in its place, and `done` is the flag of that name.
pub data Phase : Type 0 where
  queued claimed copying copied done : Phase

-- `src` and `dst` are pointers into the arenas of tiers: a tier and an offset for each.
pub record Job : Type 0 where
  pub ref : ℕ
  pub id : ℕ
  pub dst_tier : ℕ
  pub dst_slot : ℕ
  pub src_tier : ℕ
  pub src_off : ℕ
  pub dst_off : ℕ
  pub bytes : ℕ
  pub cancelled : Bool
  pub phase : Phase

-- `jobs` has the front of the deque at its head. `migrating` maps a block to its job.
-- `hardware_threads` is what `std::thread::hardware_concurrency` returns.
pub record Pool : Type 0 where
  pub cfg : CacheConfig
  pub tiers : List TierState
  pub location : List Location
  pub refcount : List ℕ
  pub free_ids : List ℕ
  pub bounce : Bytes
  pub jobs : List Job
  pub migrating : List (ℕ × ℕ)
  pub next_unclaimed : ℕ
  pub workers : ℕ
  pub hardware_threads : ℕ
  pub next_ref : ℕ

pub record TierSpec : Type 0 where
  pub tier : Option Tier
  pub num_blocks : ℕ

-- `std::unordered_map<BlockId, MigrationJob*>`
unfoldable pub find : ℕ → List (ℕ × ℕ) → Option ℕ
find id [] = none
find id ((k, r) ∷ m) = if k == id then some r else find id m

unfoldable pub erase : ℕ → List (ℕ × ℕ) → List (ℕ × ℕ)
erase id [] = []
erase id ((k, r) ∷ m) = if k == id then m else (k, r) ∷ erase id m

unfoldable pub is_some : Option ℕ → Bool
is_some none = false
is_some (some r) = true

-- `job->cancelled.store(true)` through a pointer.
unfoldable pub set_cancelled : ℕ → List Job → List Job
set_cancelled r [] = []
set_cancelled r (j ∷ js) =
    (if j.ref == r then record j { cancelled = true } else j) ∷ set_cancelled r js

-- `tiers_[t].free_slots = free`
unfoldable pub put_free : List TierState → ℕ → TierState → List ℕ → List TierState
put_free tiers t ts free = set tiers t (record ts { free_slots = free })
