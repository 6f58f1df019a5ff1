-- ===== src/Tests/Samples.antt =====
-- A pool of two tiers with two blocks each, of 16 bytes a block, and pools reached from it.
use kvslab.Base.{
  ℕ, zero, suc, ◌+◌, ◌*◌, ◌^◌, ◌≤◌, ◌<◌, ◌≡◌, refl, true, false, some, List, [], ◌∷◌, arith,
  get_elem?, replicate, ok, Returns, Returns-at,
}
use mathlib.Core.Path.{subst}
use kvslab.Types.{CacheConfig, block_bytes}
use kvslab.Tier.{Tier, Bytes}
use kvslab.Pool.{grant, locate, migrating?}
use kvslab.Pool.State.{Location, TierState, Pool, TierSpec, put_free, queued, find, is_some}
use kvslab.Pool.Setup.{init, push_descending}
use kvslab.Pool.Setup.Start.{AllAccepted, init-Fresh, Fresh}
use kvslab.Pool.Inv.{Inv}
use kvslab.Pool.Basic.{grant-Inv}
use kvslab.Pool.Queue.{migrate_async, async_located, try_enqueue, enqueue, new_job, ensure_worker}
use kvslab.Pool.Queue.Async.{Started, migrate_async-Started}
use kvslab.Pool.Copy.{Sized}

abbrev pub cfg : CacheConfig
cfg = record {
  num_blocks = 2;
  block_tokens = 2;
  num_layers = 1;
  num_kv_heads = 1;
  head_dim = 2;
  dtype_bytes = 2;
}

abbrev pub zeros : Bytes
zeros i = 0

abbrev pub numbered : Bytes
numbered i = i + 1

-- Two host tiers.
abbrev pub near : Tier
near = record { capacity = 4096; addressable = true; arena = numbered }

abbrev pub far : Tier
far = record { capacity = 4096; addressable = true; arena = zeros }

abbrev pub specs : List TierSpec
specs = record { tier = some far; num_blocks = 2 } ∷ []

abbrev pub near_spec : TierSpec
near_spec = record { tier = some near; num_blocks = 2 }

pub specs-AllAccepted : AllAccepted cfg (near_spec ∷ specs)
unfolding block_bytes
specs-AllAccepted = (
  record { tier = near; given = refl; room = omega arith; size = omega arith },
  (record { tier = far; given = refl; room = omega arith; size = omega arith }, tt),
)

abbrev pub near_state : List ℕ → TierState
near_state free = record { tier = near; num_blocks = 2; free_slots = free }

abbrev pub far_state : List ℕ → TierState
far_state free = record { tier = far; num_blocks = 2; free_slots = free }

-- What `init` returns on these specs.
abbrev pub empty : Pool
empty = record {
  cfg = cfg;
  tiers = near_state (0 ∷ 1 ∷ []) ∷ far_state (0 ∷ 1 ∷ []) ∷ [];
  location = replicate 4 (record { tier = 0; slot = 0 });
  refcount = replicate 4 0;
  free_ids = 0 ∷ 1 ∷ 2 ∷ 3 ∷ [];
  bounce = zeros;
  jobs = [];
  migrating = [];
  next_unclaimed = 0;
  workers = 0;
  hardware_threads = 8;
  next_ref = 0;
}

pub init-empty : init 8 zeros (near_spec ∷ specs) cfg ≡ ok empty
unfolding init push_descending block_bytes
init-empty = refl

pub empty-Fresh : Fresh (near_spec ∷ specs) empty
empty-Fresh =
    let (q, e, f) = init-Fresh 8 zeros near_spec specs cfg specs-AllAccepted (omega arith) in
    let same : q ≡ empty = ground (arith, e, init-empty) in subst (Fresh (near_spec ∷ specs)) same f

-- Block 0 in use, in slot 0 of the compute tier.
abbrev pub one_used : Pool
one_used = record empty {
  tiers = near_state (1 ∷ []) ∷ far_state (0 ∷ 1 ∷ []) ∷ [];
  refcount = 1 ∷ 0 ∷ 0 ∷ 0 ∷ [];
  free_ids = 1 ∷ 2 ∷ 3 ∷ [];
}

pub one_used-Inv : Inv one_used []
unfolding grant put_free
one_used-Inv = grant-Inv empty-Fresh.0 (near_state (0 ∷ 1 ∷ [])) refl refl refl

pub one_used-Sized : Sized one_used
unfolding block_bytes
one_used-Sized = record { fits = fits }
  where
    fits :
        (t : ℕ) (ts : TierState)
        → get_elem? one_used.tiers t ≡ some ts
        → (ts.num_blocks * block_bytes cfg ≤ ts.tier.capacity) × (ts.tier.capacity < 2 ^ 64)
    fits zero ts h = ground arith
    fits (suc zero) ts h = ground arith
    fits (suc (suc t)) ts h = cc

-- Block 0 on its way to the spill tier.
abbrev pub moving : Pool
moving = record one_used {
  tiers = near_state (1 ∷ []) ∷ far_state (1 ∷ []) ∷ [];
  jobs =
      record {
        ref = 0;
        id = 0;
        dst_tier = 1;
        dst_slot = 0;
        src_tier = 0;
        src_off = 0;
        dst_off = 0;
        bytes = 16;
        cancelled = false;
        phase = queued;
      }
      ∷ [];
  migrating = (0, 0) ∷ [];
  workers = 3;
  next_ref = 1;
}

abbrev pub home : Location
home = record { tier = 0; slot = 0 }

pub one_used-Started :
    Returns
      (λ (started, q).
        Started one_used 0 home 1 (far_state (0 ∷ 1 ∷ [])) (near_state (1 ∷ [])) started q)
      (migrate_async one_used 0 1)
one_used-Started =
    migrate_async-Started one_used-Inv 0 0 home 1 (far_state (0 ∷ 1 ∷ [])) (near_state (1 ∷ []))
      refl refl refl refl

pub runs_async : migrate_async one_used 0 1 ≡ ok (true, moving)
unfolding migrate_async locate async_located try_enqueue enqueue new_job ensure_worker migrating?
    find is_some put_free block_bytes
runs_async = refl

pub moving-Inv : Inv moving moving.jobs
moving-Inv = (Returns-at one_used-Started runs_async).inv
