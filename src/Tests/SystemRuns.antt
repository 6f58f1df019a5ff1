-- ===== src/Tests/SystemRuns.antt =====
-- Runs of the whole system at the sample pool: a request is served, and its handle asks and is dropped.
use kvslab.Base.{
  ℕ, zero, suc, ◌+◌, ◌^◌, ◌<◌, ◌≡◌, refl, ◌≢◌, ◌⊎◌, true, some, [], ◌∷◌, arith, get_elem?, count,
  ok, Returns,
}
use kvslab.Radix.State.{Tree, end, empty_tree}
use kvslab.Manager.{Manager, Allocation, no_options, no_stats, no_allocation, tiered}
use kvslab.Pool.{num_free, allocate, grant}
use kvslab.Pool.State.{put_free}
use kvslab.Pool.Queue.{drain_migrations, finished, unfinished}
use kvslab.Radix.Pin.{lock, walk_up}
use kvslab.Radix.Match.{match_prefix, match_walk, stop}
use kvslab.Manager.{maintain, with_pool, release, release_live, drop_fresh}
use kvslab.Pool.Refs.{refs}
use kvslab.Radix.Clear.{destroy_tree}
use kvslab.Pool.{num_used, drop_ref, decref, incref}
use kvslab.Radix.Insert.{insert, insert_walk, hang, leaf, insert_limit}
use kvslab.Radix.Pin.{unlock}
use kvslab.Tests.Cached.{cached, two_used}
use kvslab.Pool.Slots.{reserved}
use kvslab.Pool.Free.{free_of}
use kvslab.Manager.Acquire.{
  acquire, acquire_matched, make_room, evict_for, evict_rounds, serve, allocate_fresh,
}
use kvslab.Manager.Maintain.{AllUsed}
use kvslab.Manager.System.{
  System, head, acquires, releases, drops, run, Reach, at_start, onward, IsSound,
}
use kvslab.Manager.System.Reachable.{
  fresh_system, Alone, tiered-Reach-IsSound, tiered-Reach-run, tiered-Reach-Alone,
  tiered-Reach-destroy_tree, tiered-Reach-exclusive,
}
use kvslab.Tests.Samples.{
  cfg, zeros, near_spec, specs, specs-AllAccepted, empty, one_used, home, init-empty,
}

abbrev bare : Tree
bare = record {
  block_tokens = 2;
  children = end;
  root_access = 0;
  clock = 0;
  stored_blocks = 0;
  num_nodes = 0;
  collisions = 0;
  next_ptr = 1;
}

abbrev new_manager : Manager
new_manager = record {
  cfg = cfg;
  pool = empty;
  tree = bare;
  stats = no_stats;
  options = no_options;
}

starts : tiered 8 zeros (near_spec ∷ specs) cfg no_options ≡ ok new_manager
unfolding tiered with_pool empty_tree
starts = rw init-empty refl

-- The handle of a request for two tokens, which take one block.
abbrev served_handle : Allocation
served_handle = record no_allocation { ok = true; blocks = 0 ∷ []; owned = true }

abbrev busy_manager : Manager
busy_manager = record new_manager {
  pool = one_used;
  stats = record no_stats { requests = 1; served = 1; total_tokens = 2 };
}

abbrev one_out : System
one_out = record { manager = busy_manager; handles = served_handle ∷ [] }

serves : acquire new_manager (5 ∷ 6 ∷ []) ≡ ok (served_handle, busy_manager)
unfolding acquire drain_migrations finished unfinished lock walk_up match_prefix match_walk stop
    acquire_matched make_room num_free evict_for evict_rounds serve allocate_fresh allocate grant
    maintain put_free
serves = refl

one_served : Reach (fresh_system new_manager) one_out
unfolding run
one_served = onward at_start (acquires (5 ∷ 6 ∷ []) (omega arith, omega arith)) (rw serves refl)

tiered-Reach-IsSound_example : IsSound one_out
tiered-Reach-IsSound_example =
    tiered-Reach-IsSound 8 zeros near_spec specs cfg no_options specs-AllAccepted (omega arith)
      (omega arith) starts one_served

tiered-Reach-run_example :
    Returns (Reach (fresh_system new_manager)) (run one_out (drops served_handle [] head))
tiered-Reach-run_example =
    tiered-Reach-run 8 zeros near_spec specs cfg no_options specs-AllAccepted (omega arith)
      (omega arith) starts one_served (drops served_handle [] head)

tiered-Reach-Alone_example :
    AllUsed one_used (0 ∷ []) × ((b : ℕ) → Alone one_out served_handle [] b)
tiered-Reach-Alone_example =
    tiered-Reach-Alone 8 zeros near_spec specs cfg no_options specs-AllAccepted (omega arith)
      (omega arith) starts one_served head

-- Its release publishes the block.
abbrev published : Manager
published = record busy_manager { tree = cached 0 }

releases_it : release busy_manager (5 ∷ 6 ∷ []) served_handle ≡ ok (no_allocation, published)
unfolding release release_live insert insert_walk hang leaf insert_limit drop_fresh drop_ref decref
    incref drain_migrations finished unfinished walk_up unlock maintain
releases_it = refl

has_room : (b : ℕ) → 0 < count b (0 ∷ []) → refs one_used b + 1 < 2 ^ 32
has_room zero some_b = omega arith
has_room (suc b) some_b = absurd (ground arith)

one_published : Reach (fresh_system new_manager) (fresh_system published)
unfolding run
one_published =
    onward one_served (releases (5 ∷ 6 ∷ []) served_handle [] head (has_room, omega arith))
      (rw releases_it refl)

tiered-Reach-destroy_tree_example :
    Returns (λ p. ((b : ℕ) → refs p b ≡ 0) × (num_used p ≡ 0)) (destroy_tree one_used (cached 0))
tiered-Reach-destroy_tree_example =
    tiered-Reach-destroy_tree 8 zeros near_spec specs cfg no_options specs-AllAccepted (omega arith)
      (omega arith) starts one_published refl

-- A second request, before the first is released.
abbrev second_handle : Allocation
second_handle = record no_allocation { ok = true; blocks = 1 ∷ []; owned = true }

abbrev full_manager : Manager
full_manager = record new_manager {
  pool = two_used;
  stats = record no_stats { requests = 2; served = 2; total_tokens = 4 };
}

abbrev two_out : System
two_out = record { manager = full_manager; handles = second_handle ∷ served_handle ∷ [] }

serves_second : acquire busy_manager (7 ∷ 8 ∷ []) ≡ ok (second_handle, full_manager)
unfolding acquire drain_migrations finished unfinished lock walk_up match_prefix match_walk stop
    acquire_matched make_room num_free evict_for evict_rounds serve allocate_fresh allocate grant
    maintain put_free
serves_second = refl

two_served : Reach (fresh_system new_manager) two_out
unfolding run
two_served =
    onward one_served (acquires (7 ∷ 8 ∷ []) (omega arith, omega arith)) (rw serves_second refl)

tiered-Reach-exclusive_example :
    (free_of two_used.tiers 0 0 ≡ 0)
    × (reserved 0 0 two_used.jobs ≡ 0)
    × ((k : ℕ) → (k ≡ 0) ⊎ (refs two_used k ≡ 0) ⊎ (get_elem? two_used.location k ≢ some home))
tiered-Reach-exclusive_example =
    tiered-Reach-exclusive 8 zeros near_spec specs cfg no_options specs-AllAccepted (omega arith)
      (omega arith) starts two_served 0 0 home refl refl
