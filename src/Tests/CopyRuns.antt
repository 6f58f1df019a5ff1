-- ===== src/Tests/CopyRuns.antt =====
-- The theorems of the background copies at a pool with one copy on its way.
use kvslab.Base.{ℕ, ◌≡◌, refl, true, false, [], ◌∷◌, ok, for_each, Returns, Returns-at}
use kvslab.Pool.State.{Job, Pool, Phase, claimed, find, is_some, put_free}
use kvslab.Tier.{memcpy}
use kvslab.Pool.Queue.{migrate_async, try_enqueue, async_located, enqueue, new_job, ensure_worker}
use kvslab.Pool.{locate, migrating?}
use kvslab.Types.{block_bytes}
use kvslab.Pool.Health.{Healthy}
use kvslab.Pool.Health.Landed.{Landed}
use kvslab.Pool.Health.Async.{migrate_async-Healthy}
use kvslab.Manager.{Manager}
use kvslab.Manager.Serving.{Serving}
use kvslab.Manager.Maintain.{Steady-same}
use kvslab.Manager.Acquire.{keep_here}
use kvslab.Manager.Acquire.Refusal.{Fate, keep_here-Serving}
use kvslab.Tests.Cached.{two_used, two_used-Healthy, at_work, at_work-Serving, just_one, cached}
use kvslab.Tests.Samples.{moving, one_used, home, near_state, zeros, far, numbered, far_state}

abbrev with_phase : Phase → Pool
with_phase ph = record moving {
  jobs =
      record {
        ref = 0;
        id = 0;
        dst_tier = 1;
        dst_slot = 0;
        src_tier = 0;
        src_off = 0;
        dst_off = 0;
        bytes = 16;
        cancelled = false;
        phase = ph;
      }
      ∷ [];
  next_unclaimed = 1;
}

-- The pool after the copy: the spill slot has the sixteen bytes.
abbrev with_copy : Phase → Pool
with_copy ph = record (with_phase ph) {
  tiers =
      near_state (1 ∷ [])
      ∷ record (far_state (1 ∷ [])) { tier = record far { arena = memcpy 16 zeros 0 numbered 0 } }
      ∷ [];
}

abbrev claimed_job : Job
claimed_job = record {
  ref = 0;
  id = 0;
  dst_tier = 1;
  dst_slot = 0;
  src_tier = 0;
  src_off = 0;
  dst_off = 0;
  bytes = 16;
  cancelled = false;
  phase = claimed;
}

-- The manager of `at_work` with a copy of block 0 on its way to the spill tier.
abbrev two_moving : Pool
two_moving = record two_used {
  tiers = near_state [] ∷ far_state (1 ∷ []) ∷ [];
  jobs = moving.jobs;
  migrating = moving.migrating;
  next_ref = moving.next_ref;
  workers = moving.workers;
}

runs_demotion : migrate_async two_used 0 1 ≡ ok (true, two_moving)
unfolding migrate_async async_located try_enqueue enqueue new_job ensure_worker locate migrating?
    find is_some put_free block_bytes
runs_demotion = refl

two_moving-Healthy : Healthy two_moving
two_moving-Healthy =
    (Returns-at
      (migrate_async-Healthy two_used-Healthy 0 0 home 1 (far_state (0 ∷ 1 ∷ [])) (near_state [])
        refl refl refl refl)
      runs_demotion).0

abbrev demoting : Manager
demoting = record at_work { pool = two_moving }

demoting-Serving : Serving just_one just_one demoting
demoting-Serving = record {
  healthy = two_moving-Healthy;
  steady = Steady-same at_work-Serving.steady two_moving two_moving-Healthy.inv (λ b. refl);
  same_tokens = at_work-Serving.same_tokens;
}

keep_here-Serving_example :
    Returns
      (λ q.
        Serving just_one just_one (record demoting { pool = q })
        × (q.tiers ≡ two_moving.tiers)
        × (q.location ≡ two_moving.location)
        × ((b : ℕ) → Fate (0 ∷ []) two_moving q b))
      (for_each keep_here (0 ∷ []) two_moving)
keep_here-Serving_example = keep_here-Serving demoting-Serving (0 ∷ [])

-- One slot is free where two are wanted, and the cached block may move.
abbrev short_of_room : Manager
short_of_room = record at_work {
  pool = one_used;
  tree = cached 0;
  options = record { spill_watermark = 2; async_promotion = false };
}
