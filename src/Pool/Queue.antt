-- ===== src/Pool/Queue.antt =====
-- The migration queue of BlockPool (src/block_pool.cpp): `migrate_async`, the workers, and
-- `drain_migrations`. A worker's round is cut into steps, between which the calling thread may run:
-- the claim of a job, the read of `cancelled`, the copy, and the store of `done`.
pub mod Async
pub mod Drain
pub mod Worker
pub mod Turns
pub mod Round
use kvslab.Base.{
  ℕ, suc, ◌+◌, ◌*◌, Bool, true, false, not, ◌&&◌, ◌||◌, none, some, List, [], ◌∷◌, ◌++◌, leb, ltb,
  ◌==◌, if◌then◌else◌, u64, sub64, length, set, Result, ok, err, fatal, undefined, ◌>>=◌, ◌>>◌,
  guard, at, for_each,
}
use kvslab.Types.{block_bytes}
use kvslab.Tier.{memcpy}
use kvslab.Pool.{locate, migrating?}
use kvslab.Pool.State.{
  Location, TierState, Job, Phase, queued, claimed, copying, copied, done, Pool, find, erase,
  put_free,
}

-- `ensure_worker`
unfoldable pub ensure_worker : Pool → Pool
ensure_worker p = record p {
  workers = if not (p.workers == 0) then p.workers else if leb 4 p.hardware_threads then 3 else 1;
}

unfoldable pub new_job : Pool → ℕ → ℕ → Location → ℕ → Job
new_job p id dst loc slot = record {
  ref = p.next_ref;
  id = id;
  dst_tier = dst;
  dst_slot = slot;
  src_tier = loc.tier;
  src_off = u64 (loc.slot * block_bytes p.cfg);
  dst_off = u64 (slot * block_bytes p.cfg);
  bytes = block_bytes p.cfg;
  cancelled = false;
  phase = queued;
}

-- The reservation of the slot, and the job at the back of the queue.
unfoldable pub enqueue : Pool → ℕ → ℕ → Location → TierState → ℕ → List ℕ → Pool
unfolding new_job
enqueue p id dst loc dst_state slot rest = record p {
  tiers = put_free p.tiers dst dst_state rest;
  migrating = (id, p.next_ref) ∷ p.migrating;
  jobs = p.jobs ++ new_job p id dst loc slot ∷ [];
  next_ref = suc p.next_ref;
}

-- The rest of `migrate_async` once the destination has a slot.
unfoldable pub try_enqueue : Pool → ℕ → ℕ → Location → TierState → ℕ → List ℕ → Result (Bool × Pool)
try_enqueue p id dst loc dst_state slot rest = do
  src_state ← at p.tiers loc.tier
  if src_state.tier.addressable && dst_state.tier.addressable
      then ok (true, ensure_worker (enqueue p id dst loc dst_state slot rest))
      else ok (false, p)

-- The refusals of `migrate_async`, in their order.
unfoldable pub async_located : Pool → ℕ → ℕ → Location → Result (Bool × Pool)
async_located p id dst loc =
    if loc.tier == dst || migrating? p id
    then ok (false, p)
    else (at p.tiers dst >>= λ dst_state. elim dst_state.free_slots [
      | [] ↦ ok (false, p)
      | slot ∷ rest ↦ try_enqueue p id dst loc dst_state slot rest
    ])

unfoldable pub migrate_async : Pool → ℕ → ℕ → Result (Bool × Pool)
unfolding locate
migrate_async p id dst = do
  loc ← locate p id
  guard (ltb dst (length p.tiers)) fatal
  async_located p id dst loc

-- `*job`
unfoldable pub job_at : ℕ → List Job → Result Job
job_at r [] = err undefined
job_at r (j ∷ js) = if j.ref == r then ok j else job_at r js

unfoldable pub migration_target : Pool → ℕ → Result ℕ
unfolding find job_at
migration_target p id = elim (find id p.migrating) [
  | none ↦ err fatal
  | some r ↦ job_at r p.jobs >>= λ j. ok j.dst_tier
]

unfoldable pub departures : Pool → ℕ → List (ℕ × ℕ) → Result ℕ
unfolding job_at
departures p t [] = ok 0
departures p t ((id, r) ∷ m) = do
  loc ← at p.location id
  j ← job_at r p.jobs
  count ← departures p t m
  ok ((if loc.tier == t && not (j.dst_tier == t) then 1 else 0) + count)

unfoldable pub pending_departures : Pool → ℕ → Result ℕ
unfolding departures
pending_departures p t = departures p t p.migrating

-- A worker takes the next job, if there is one; `wait` keeps it asleep otherwise.
unfoldable pub claim : Pool → Result Pool
claim p =
    if ltb p.next_unclaimed (length p.jobs) && not (p.workers == 0)
    then (do
      j ← at p.jobs p.next_unclaimed
      ok (record p {
        jobs = set p.jobs p.next_unclaimed (record j { phase = claimed });
        next_unclaimed = u64 (p.next_unclaimed + 1);
      }))
    else ok p

unfoldable pub set_phase : Pool → ℕ → Job → Phase → Pool
set_phase p i j phase = record p { jobs = set p.jobs i (record j { phase = phase }) }

unfoldable pub put_copy : Pool → Job → TierState → TierState → Pool
put_copy p j src dst =
    let bytes = memcpy j.bytes dst.tier.arena j.dst_off src.tier.arena j.src_off in
    record p {
      tiers = set p.tiers j.dst_tier (record dst { tier = record dst.tier { arena = bytes } });
    }

-- The `memcpy` of a worker.
unfoldable pub copy_job : Pool → ℕ → Job → Result Pool
unfolding set_phase put_copy
copy_job p i j = do
  src ← at p.tiers j.src_tier
  dst ← at p.tiers j.dst_tier
  ok (set_phase (put_copy p j src dst) i j copied)

-- The next step of the worker that has claimed job `i`; nothing if no worker has.
unfoldable pub work_on : Pool → ℕ → Job → Phase → Result Pool
unfolding copy_job
work_on p i j queued = ok p
work_on p i j claimed = ok (set_phase p i j (if j.cancelled then copied else copying))
work_on p i j copying = copy_job p i j
work_on p i j copied = ok (set_phase p i j done)
work_on p i j done = ok p

unfoldable pub work : Pool → ℕ → Result Pool
unfolding work_on
work p i = do j ← at p.jobs i; work_on p i j j.phase

abbrev pub is_done : Phase → Bool
is_done done = true
is_done _ = false

-- The finished jobs at the front of the queue, and the queue without them.
unfoldable pub finished : List Job → List Job
finished [] = []
finished (j ∷ js) = if is_done j.phase then j ∷ finished js else []

unfoldable pub unfinished : List Job → List Job
unfinished [] = []
unfinished (j ∷ js) = if is_done j.phase then unfinished js else j ∷ js

-- The destination slot of a cancelled job goes back.
unfoldable pub drop_slot : Pool → Job → TierState → Pool
drop_slot p j dst = record p {
  tiers = put_free p.tiers j.dst_tier dst (j.dst_slot ∷ dst.free_slots);
}

-- The source slot goes back, and the block is bound to the slot with the copy.
unfoldable pub land : Pool → Job → Location → TierState → Pool
unfolding erase
land p j loc src = record p {
  tiers = put_free p.tiers loc.tier src (loc.slot ∷ src.free_slots);
  location = set p.location j.id (record { tier = j.dst_tier; slot = j.dst_slot });
  migrating = erase j.id p.migrating;
}

-- The second loop of `drain_migrations`: one finished job.
unfoldable pub settle : Pool → Job → Result Pool
settle p j =
    if j.cancelled
    then at p.tiers j.dst_tier >>= (λ dst. ok (drop_slot p j dst))
    else (do loc ← at p.location j.id; src ← at p.tiers loc.tier; ok (land p j loc src))

unfoldable pub drain_migrations : Pool → Result Pool
drain_migrations p = for_each settle (finished p.jobs) (record p {
  jobs = unfinished p.jobs;
  next_unclaimed = sub64 p.next_unclaimed (length (finished p.jobs));
})
