-- ===== src/Pool/Queue/Round.antt =====
-- The loop body of a worker (src/block_pool.cpp): what it does with a job that it has claimed.
use kvslab.Base.{ℕ, Result, ◌>>=◌}
use kvslab.Pool.State.{Pool}
use kvslab.Pool.Queue.{work}

-- The rest of the loop body after the claim of job `i`: the look at `cancelled`, the copy if it is
-- not, and the mark that it is done, with no other thread in between.
unfoldable pub work_off : Pool → ℕ → Result Pool
unfolding work
work_off p i = do q ← work p i; r ← work q i; work r i
