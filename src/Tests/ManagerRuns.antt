-- ===== src/Tests/ManagerRuns.antt =====
-- The theorems of the evictions and of CacheManager at the samples, and runs of it.
use kvslab.Base.{
  ℕ, ◌+◌, ◌^◌, ◌≤◌, ◌<◌, ◌≡◌, refl, sym, ◌⊎◌, Option, some, List, [], ◌∷◌, arith, ◌==◌,
  if◌then◌else◌, length, count, ok, Returns,
}
use kvslab.Radix.Insert.{insert}
use kvslab.Radix.Insert.Adopt.{CountsOnly}
use kvslab.Radix.Evict.{evict, pick_demotion_victims}
use kvslab.Radix.Evict.Loop.{Evicted}
use kvslab.Radix.Evict.Pick.{Picked, pick_demotion_victims-Picked}
use kvslab.Radix.Steady.{PinOf, Steady, evict-Steady, insert-Steady}
use kvslab.Manager.{Allocation, no_allocation, abandon, destroy, move_assign, release}
use kvslab.Manager.Serving.{Serving}
use kvslab.Manager.Handle.{abandon-Serving, destroy-Serving}
use kvslab.Manager.Handle.Move.{sum_by, held_by, pins_by, Moved, move_assign-Serving}
use std.Path.{fun_ext}
use kvslab.Manager.Release.{release-Serving}
use mathlib.Core.Path.{subst}
use kvslab.Types.{block_key}
use kvslab.Pool.Refs.{refs}
use kvslab.Radix.State.{first_key, common, common_blocks}
use kvslab.Radix.Match.{match_prefix, match_walk, stop, end_inside, go_through}
use kvslab.Radix.Pin.{lock}
use kvslab.Radix.Pin.Anchor.{SameWays}
use kvslab.Radix.Pin.Same.{NoMore}
use kvslab.Radix.WellFormed.{stored}
use kvslab.Radix.Pin.Count.{weight}
use kvslab.Radix.Pin.Locked.{locked, evict-locked, pick_demotion_victims-unlocked}
use kvslab.Radix.Pin.Path.{match_prefix-lock-locked}
use kvslab.Manager.Acquire.{make_room, evict_for, evict_rounds}
use kvslab.Manager.Acquire.{acquire}
use kvslab.Manager.Acquire.Outcome.{Answered, acquire-Answered}
use kvslab.Manager.Acquire.Room.{Cleared, make_room-Cleared, evict_for-Cleared}
use kvslab.Radix.Evict.{
  evict_loop, total, num_entries, find_lru_leaf, scan, visit, eligible, no_children, is_rejected,
  better,
}
use kvslab.Pool.{num_free}
use kvslab.Manager.{no_stats}
use kvslab.Manager.Acquire.{back_out}
use kvslab.Manager.Acquire.Refusal.{back_out-Serving}
use kvslab.Manager.Start.{AllHere, tiered-Serving, ready-Serving}
use kvslab.Manager.{ready, tiered, no_options}
use kvslab.Tests.Samples.{one_used, cfg, zeros, specs, near_spec, specs-AllAccepted}
use kvslab.Tests.Cached.{
  cached, two_used, nobody, just_one, cached-Sound, cached-Steady, at_work, handle, at_work-Serving,
}

evict-Steady_example :
    Returns
      (λ (f, q, u). Steady nobody nobody q u × Evicted nobody (cached 0) 0 f q u)
      (evict 1 one_used (cached 0))
evict-Steady_example = evict-Steady cached-Steady 1

pick_demotion_victims-Picked_example :
    Returns
      (λ (n, picked).
        Picked one_used (cached 0).children (2 ∷ []) 1 picked × (1 + n ≡ length picked))
      (pick_demotion_victims one_used (cached 0) 1 (2 ∷ []))
pick_demotion_victims-Picked_example =
    pick_demotion_victims-Picked nobody one_used (cached 0) cached-Sound (2 ∷ []) 1

insert-Steady_example :
    Returns
      (λ (n, q, u). Steady nobody nobody q u × (u.block_tokens ≡ 2) × CountsOnly one_used q)
      (insert one_used (cached 0) (5 ∷ 7 ∷ []) (0 ∷ []))
insert-Steady_example =
    insert-Steady cached-Steady (5 ∷ 7 ∷ []) (0 ∷ []) (omega arith) ((0, refl, omega arith), tt)

-- The other handles have nothing.
just_one-more : (b : ℕ) → just_one b ≡ nobody b + count b (1 ∷ [])
just_one-more b = ground arith

pin_one : (b : ℕ) → just_one b ≡ nobody b + (if b == 1 then 1 else 0)
pin_one b = ground arith

abandon-Serving_example :
    Returns
      (λ (b, n).
        Serving nobody nobody n
        × (b ≡ no_allocation)
        × (n.stats.abandoned ≡ 1)
        × SameWays nobody at_work.tree n.tree
        × NoMore at_work.tree.children n.tree.children)
      (abandon at_work handle)
abandon-Serving_example = abandon-Serving at_work-Serving handle just_one-more pin_one

destroy-Serving_example :
    Returns
      (λ n.
        Serving nobody nobody n
        × SameWays nobody at_work.tree n.tree
        × NoMore at_work.tree.children n.tree.children)
      (destroy at_work handle)
destroy-Serving_example = destroy-Serving at_work-Serving handle (just_one-more, pin_one)

-- The handle moves to one that has nothing.
abbrev handles : List Allocation
handles = handle ∷ no_allocation ∷ []

handles-Serving : Serving (held_by handles) (pins_by handles) at_work
unfolding sum_by
handles-Serving =
    subst (λ (x : ℕ → ℕ). Serving x (pins_by handles) at_work) (fun_ext (λ b. ground arith))
      (subst (λ (x : ℕ → ℕ). Serving just_one x at_work) (fun_ext (λ b. ground arith))
        at_work-Serving)

move_assign-Serving_example :
    Returns
      (λ (gs, n).
        Moved handles 1 0 at_work gs n
        × Serving (held_by gs) (pins_by gs) n
        × SameWays (pins_by gs) at_work.tree n.tree
        × NoMore at_work.tree.children n.tree.children)
      (move_assign at_work handles 1 0)
move_assign-Serving_example =
    move_assign-Serving handles handles-Serving 1 0 (omega arith) (omega arith)

release-Serving_example :
    Returns
      (λ (b, n).
        Serving nobody nobody n
        × (b ≡ no_allocation)
        × SameWays nobody at_work.tree n.tree
        × ((k : ℕ)
            → count k handle.blocks ≡ 0
            → stored k n.tree.children ≤ stored k at_work.tree.children))
      (release at_work (5 ∷ 6 ∷ 7 ∷ 8 ∷ []) handle)
release-Serving_example =
    release-Serving at_work-Serving (5 ∷ 6 ∷ 7 ∷ 8 ∷ []) handle refl just_one-more pin_one
      (omega arith) ((0, refl, omega arith), ((0, refl, omega arith), tt))

evict-locked_example :
    Returns
      (λ (f, q, u).
        (b : ℕ)
        → (locked b u.children ≡ locked b (cached 1).children)
          × (locked b (cached 1).children ≤ refs q b))
      (evict 1 two_used (cached 1))
evict-locked_example = evict-locked at_work-Serving.steady 1

pick_demotion_victims-unlocked_example :
    Returns
      (λ (n, picked). (b : ℕ) → (count b picked ≡ 0) ⊎ (locked b (cached 0).children ≡ 0))
      (pick_demotion_victims one_used (cached 0) 1 [])
pick_demotion_victims-unlocked_example = pick_demotion_victims-unlocked cached-Sound 1

-- The tokens 5, 6 match the node of block 0.
match_run : (match_prefix (cached 0) (5 ∷ 6 ∷ 9 ∷ [])).0.node ≡ some 1
unfolding match_prefix match_walk stop end_inside go_through common common_blocks first_key
    block_key
match_run = refl

pins_match : PinOf (match_prefix (cached 0) (5 ∷ 6 ∷ 9 ∷ [])).0.node nobody just_one
pins_match = subst (λ (o : Option ℕ). PinOf o nobody just_one) (sym match_run) pin_one

few_pins : weight just_one (match_prefix (cached 0) (5 ∷ 6 ∷ 9 ∷ [])).1.children < 2 ^ 32
unfolding match_prefix match_walk stop end_inside go_through common common_blocks first_key
    block_key weight
few_pins = omega arith

match_prefix-lock-locked_example :
    let (found, u) = match_prefix (cached 0) (5 ∷ 6 ∷ 9 ∷ []) in
    Returns
      (λ w.
        Steady nobody just_one one_used w
        × (w.block_tokens ≡ 2)
        × ((k : ℕ) → count k found.blocks ≤ locked k w.children))
      (lock u found.node)
match_prefix-lock-locked_example =
    match_prefix-lock-locked cached-Steady (5 ∷ 6 ∷ 9 ∷ []) pins_match few_pins

tiered-Serving_example :
    Returns
      (λ m. Serving nobody nobody m × (m.options ≡ no_options))
      (tiered 8 zeros (near_spec ∷ specs) cfg no_options)
tiered-Serving_example =
    tiered-Serving 8 zeros near_spec specs cfg no_options specs-AllAccepted (omega arith)
      (omega arith)

ready-Serving_example :
    Returns
      (λ (answer, n).
        Serving just_one just_one n
        × (n.tree ≡ at_work.tree)
        × (if answer then AllHere n.pool (0 ∷ 1 ∷ []) else ¬ AllHere n.pool (0 ∷ 1 ∷ [])))
      (ready at_work handle)
ready-Serving_example = ready-Serving at_work-Serving handle refl (omega arith, (omega arith, tt))

make_room-Cleared_example : Returns (Cleared just_one just_one at_work) (make_room at_work 1)
make_room-Cleared_example = make_room-Cleared at_work-Serving 1

evict_for-Cleared_example : Returns (Cleared just_one just_one at_work) (evict_for at_work 1)
evict_for-Cleared_example = evict_for-Cleared at_work-Serving 1

-- With the node pinned, nothing is evicted for a slot that is wanted.
nothing_to_evict : evict_for at_work 1 ≡ ok at_work
unfolding evict_for evict_rounds evict evict_loop total num_entries num_free find_lru_leaf scan
    visit eligible no_children is_rejected better
nothing_to_evict = refl

back_out-Serving_example :
    Returns
      (λ (b, n).
        Serving just_one nobody n
        × (b ≡ no_allocation)
        × (n.pool ≡ two_used)
        × (n.stats ≡ record no_stats { alloc_failures = 1 }))
      (back_out at_work handle)
back_out-Serving_example = back_out-Serving at_work-Serving handle pin_one

acquire-Answered_example :
    Returns (Answered just_one just_one 2 (cached 1).children) (acquire at_work (5 ∷ 6 ∷ 9 ∷ []))
unfolding weight
acquire-Answered_example =
    acquire-Answered at_work-Serving 5 (6 ∷ 9 ∷ []) (omega arith) (omega arith)
