-- ===== src/Pool/Health/Round.antt =====
-- What a worker's loop body does to the pool and to the bytes.
use kvslab.Base.{ℕ, ◌≡◌, some, List, if◌then◌else◌, get_elem?, set}
use kvslab.Tier.{memcpy}
use kvslab.Pool.State.{TierState, Job, Phase, claimed, done, Pool}
use kvslab.Pool.Queue.{set_phase}
use kvslab.Pool.Health.{Healthy}

abbrev phased : Job → Phase → Job
phased j phase = record j { phase = phase }

-- The tiers after the copy of a job: the bytes of its source are in the slot that it has reserved.
abbrev pub Copied : Pool → Job → List TierState → Type 0
Copied p j ts =
    (src : TierState) × (dst : TierState) × (get_elem? p.tiers j.src_tier ≡ some src)
    × (get_elem? p.tiers j.dst_tier ≡ some dst)
    × (ts
        ≡ set p.tiers j.dst_tier (record dst {
          tier = record dst.tier {
            arena = memcpy j.bytes dst.tier.arena j.dst_off src.tier.arena j.src_off;
          };
        }))

-- What the loop body leaves of a pool with job `j` claimed.
pub record WorkedOff (p : Pool) (i : ℕ) (j : Job) (q : Pool) : Type 0 where
  pub healthy : Healthy q
  pub jobs : q.jobs ≡ set p.jobs i (phased j done)
  pub tiers : if j.cancelled then q.tiers ≡ p.tiers else Copied p j q.tiers
  pub location : q.location ≡ p.location
  pub refcount : q.refcount ≡ p.refcount
  pub migrating : q.migrating ≡ p.migrating
  pub cursor : q.next_unclaimed ≡ p.next_unclaimed

module _ {p : Pool} (h : Healthy p) (i : ℕ) (j : Job) (g : get_elem? p.jobs i ≡ some j)
    (mine : j.phase ≡ claimed) where
  abbrev first : Phase → Pool
  first ph = set_phase p i j ph
