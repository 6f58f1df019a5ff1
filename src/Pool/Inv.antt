-- ===== src/Pool/Inv.antt =====
-- The invariant of BlockPool. `Inv p js` is about the pool `p` with the jobs `js`, which are those of
-- the pool but in the middle of `drain_migrations`, where some have been taken off the queue.
use kvslab.Base.{
  ℕ, suc, ◌+◌, ◌*◌, ◌^◌, ◌≤◌, ◌<◌, ◌≡◌, ◌≢◌, false, some, List, arith, ltb, if◌then◌else◌, u64,
  length, get_elem?, count,
}
use kvslab.Types.{block_bytes}
use kvslab.Pool.{num_used}
use kvslab.Pool.State.{Location, Job, Pool, find}
use kvslab.Pool.Slots.{occupants, reserved, in_use, live}
use kvslab.Pool.Free.{free_of, size_of, sum_free}

-- Each slot of a tier is on its free list, or holds one block that is in use, or is the destination
-- of one queued copy; and each id is free, or in use. Free ids never run out before free slots.
pub record Storage (p : Pool) (js : List Job) : Type 0 where
  pub sizes : length p.location ≡ length p.refcount
  pub slots :
      (t s : ℕ)
      → free_of p.tiers t s + occupants t s p.location p.refcount + reserved t s js
        ≡ (if ltb s (size_of p.tiers t) then 1 else 0)
  pub ids :
      (id : ℕ)
      → count id p.free_ids + in_use (get_elem? p.refcount id)
        ≡ (if ltb id (length p.refcount) then 1 else 0)
  pub balance : length p.free_ids ≡ sum_free p.tiers + length js
  pub population : length p.free_ids + live p.refcount ≡ length p.refcount
  pub valid_ids : length p.refcount < 2 ^ 32

-- The block of a job is in use, lives where the job copies from, and is mapped to the job.
pub record InFlight (p : Pool) (j : Job) : Type 0 where
  pub mapped : find j.id p.migrating ≡ some j.ref
  pub loc : Location
  pub others : ℕ
  pub located : get_elem? p.location j.id ≡ some loc
  pub used : get_elem? p.refcount j.id ≡ some (suc others)
  pub leaves : loc.tier ≢ j.dst_tier
  pub from_tier : j.src_tier ≡ loc.tier
  pub from_slot : j.src_off ≡ u64 (loc.slot * block_bytes p.cfg)

pub record Queued (p : Pool) (js : List Job) : Type 0 where
  pub in_flight : (i : ℕ) (j : Job) → get_elem? js i ≡ some j → j.cancelled ≡ false → InFlight p j
  pub fresh : (i : ℕ) (j : Job) → get_elem? js i ≡ some j → j.ref < p.next_ref
  pub distinct :
      (i k : ℕ) (a b : Job)
      → get_elem? js i ≡ some a
      → get_elem? js k ≡ some b
      → a.ref ≡ b.ref
      → i ≡ k

pub record Inv (p : Pool) (js : List Job) : Type 0 where
  pub storage : Storage p js
  pub queue : Queued p js

-- Under the invariant `num_used` is the number of blocks that have a reference.
pub num_used-live : {p : Pool} {js : List Job} (v : Storage p js) → num_used p ≡ live p.refcount
unfolding num_used
num_used-live v = omega (arith, v.sizes, v.population, v.valid_ids)

pub Queued-mono :
    {p q : Pool} {js : List Job}
    → Queued p js
    → ((j : Job) → InFlight p j → InFlight q j)
    → p.next_ref ≤ q.next_ref
    → Queued q js
Queued-mono v keep le = record {
  in_flight = λ i j h c. keep j (v.in_flight i j h c);
  fresh = λ i j h. omega (arith, v.fresh i j h);
  distinct = v.distinct;
}
