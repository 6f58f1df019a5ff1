-- ===== src/Pool/Queue/Turns.antt =====
-- The turns of the workers (src/block_pool.cpp), which come between the calls of the manager's thread.
-- A claim is open even while each worker has a job, so the model has more runs than the code.
use kvslab.Base.{ℕ, Bool, true, false, ◌&&◌, not, none, some, ltb, ◌==◌, length, get_elem?, Result}
use kvslab.Pool.State.{Phase, queued, done, Pool}
use kvslab.Pool.Queue.{claim, work}

-- A turn of a worker: it takes the next job, or goes on with the job that it has at this place.
pub data Turn : Type 0 where
  claims : Turn
  goes_on : ℕ → Turn

unfoldable pub turn : Pool → Turn → Result Pool
turn p claims = claim p
turn p (goes_on i) = work p i

abbrev pub in_hand : Phase → Bool
in_hand queued = false
in_hand done = false
in_hand _ = true

-- Some worker can take the turn: the others sleep in `wait`, or are at other jobs.
unfoldable pub is_busy : Pool → Turn → Bool
is_busy p claims = ltb p.next_unclaimed (length p.jobs) && not (p.workers == 0)
is_busy p (goes_on i) = elim (get_elem? p.jobs i) [ none ↦ false | some j ↦ in_hand j.phase ]
