-- ===== src/Lib.antt =====
-- kvslab: the block pool, the memory tiers, the prefix index and the manager of a KV cache for
-- language models.
--
-- A KV cache is cut into blocks of a fixed number of tokens. `BlockPool` owns the blocks: an id is a
-- place in its table of locations, a reference count, and a slot of one tier. A tier is a stretch of
-- bytes cut into slots. Blocks move between tiers at once (`migrate`) or by a queue of jobs that
-- worker threads copy and the caller's thread settles (`migrate_async`, `drain_migrations`).
-- `RadixTree` maps runs of tokens to blocks, and takes one reference on each block that it stores.
-- `CacheManager` serves requests with the two: `acquire` hands out a handle with a block table, whose
-- cached front it pins in the tree, and `release` takes it back and publishes its blocks.
--
-- Which file models which part:
--   Types.antt    include/kvslab/types.hpp: the geometry, with the wrap of size_t, and `block_key`
--   Tier.antt     include/kvslab/tier.hpp and src/tier.cpp: a tier as its capacity, whether it can
--                 be addressed, and its bytes; `read`, `write` and `memcpy` on them
--   Pool.antt     src/block_pool.cpp: `allocate`, `incref`, `decref`, `migrate` and the queries, on
--                 the state of Pool/State.antt (include/kvslab/block_pool.hpp)
--   Pool/Setup    the constructors of BlockPool
--   Pool/Queue    `worker_loop`, `migrate_async`, `drain_migrations` and the queries on jobs
--   Radix/State   src/radix_tree.cpp: the nodes of RadixTree, and `split_node`
--   Radix/Match, Radix/Insert, Radix/Pin   `match_prefix`, `insert`, `lock` and `unlock`
--   Radix/Evict   `find_lru_leaf`, `drop_leaf`, `evict` and `pick_demotion_victims`
--   Radix/Clear   the destructor
--   Manager.antt  src/cache_manager.cpp: the constructors, the handle, `release` and `maintain`
--   Manager/Acquire   `acquire`, in the order of its steps
-- The other files below these prove: Pool/Inv states the invariant of the pool, Pool/Health what it
-- keeps beside that, Pool/Slots and Pool/Free count slots, and Pool/Refs references. Radix/Entries
-- says what a tree caches, Radix/Match/Longest what a lookup in it promises, Radix/WellFormed how
-- its nodes are linked, Radix/Sound how it and the pool account for each reference, and Radix/Steady
-- for each pin as well. Manager/Serving states the invariant of the manager, with the references and
-- the pins of the handles that are out, and the other files below Manager are the operations under
-- it. Below Manager/Acquire these are its steps: Room makes room, Refusal cancels copies and
-- refuses, Promote and Fresh serve, and Outcome is the whole. Pool/Health/Room counts what serving
-- takes, and Radix/Pin/Path, Radix/Pin/Anchor and Radix/Pin/Hold are about the way to a pinned node,
-- which keeps the cached blocks of its handle. Pool/Health/Work and Pool/Health/Turns are about the
-- turns of the workers, Pool/Health/Round about what one does with a job, and Pool/Health/Landed about
-- what a drain rebinds. Manager/Handle/Move is the move assignment among the handles that are out. Manager/System puts the parts together: a state is a manager with the handles
-- that are out, and a step is one call of a caller or one turn of a worker.
-- Base.antt is what all share: lists and tests on the native numbers, and `Result` for code that may
-- throw or abort. Tests.antt has runs of the model at sample inputs.
--
-- How state and operations correspond. A function of the source is the function of that name, from
-- the state it is called on to a `Result` with the state it leaves. An exception, `fatal()`, a failed
-- `assert` and an access that C++ leaves undefined are the values of `Error`. A vector that the source
-- uses as a stack is a list with its back first. `std::unordered_map` is an association list. Numbers
-- of 32 and 64 bits wrap where the source may reach their end. A `MigrationJob*` is a job's own
-- number. The workers are steps: `claim` takes a job under the lock, and `work` is what one of them
-- then does with it outside the lock; any order of these with the caller's calls is a run. A
-- `Node*` of the tree is a number that a node keeps, and the parent of a node is the entry above it.
--
-- Four loops run on fuel, and end in the error `out_of_fuel` without it: those of `evict` and
-- `pick_demotion_victims`, the loop of `acquire` around `evict`, and the destructor of the tree, which
-- takes each node off its stack once. `evict` has a round for each block that it is asked for and for
-- each node of the tree, as a round frees a block or rejects a node; `pick_demotion_victims` has one
-- for each node, which each round rejects; and the loop around `evict` has one for each block of the
-- tree, and one more. All other loops go down a list, or down the tree.
--
-- Not modelled: the destructors of the tiers and the pool; `wait_for_migrations`, as a worker notifies
-- the condition variable that it sleeps on without the lock, so that the last notification can be lost
-- and the call need not return; `wait_ready`, which loops around it; `hit_rate`, a floating-point
-- quotient; the tests and the benchmark. Threads share memory only at the steps above; what the C++
-- memory model adds to the atomics of a job is not modelled. A tier is a value, so two specs that name
-- the same tier object are two tiers here. The counts `stored_blocks`, `num_nodes`, `collisions` and
-- the sum of the tiers' blocks in the constructor do not wrap. The asserts of `split_node` follow from
-- the alignment of the nodes, and are left out.
pub mod Base
pub mod Types
pub mod Tier
pub mod Pool
pub mod Radix
pub mod Manager
mod Tests
