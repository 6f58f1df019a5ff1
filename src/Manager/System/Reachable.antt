-- ===== src/Manager/System/Reachable.antt =====
-- What holds in each state that a manager with its handles and its workers can come to.
use kvslab.Base.{
  ℕ, suc, ◌-◌, ◌^◌, ◌<◌, ◌≡◌, refl, ap, ◌∙◌, ◌≢◌, ◌⊎◌, inl, inr, some, List, [], ◌∷◌, arith, ◌==◌,
  Bool-cases, get_elem?, count, ok, Returns, Returns-at,
}
use kvslab.Tier.{Bytes}
use kvslab.Types.{CacheConfig}
use kvslab.Pool.Refs.{refs, refs-some}
use kvslab.Pool.State.{TierSpec, Location}
use kvslab.Pool.Slots.{occupants-le, reserved}
use kvslab.Pool.Free.{free_of}
use kvslab.Pool.Content.{used-exclusive}
use kvslab.Pool.Setup.Start.{AllAccepted, block_total}
use kvslab.Radix.WellFormed.{stored}
use kvslab.Manager.{Manager, Allocation, Options, tiered}
use kvslab.Manager.Maintain.{AllUsed}
use kvslab.Manager.Serving.{fresh_blocks}
use kvslab.Manager.Start.{tiered-Serving}
use kvslab.Manager.System.{System, Takes, Call, run, Reach, at_start, onward, IsSound, held_by}
use kvslab.Manager.System.Books.{Takes-held, Takes-AllUsed, count-stored, fresh-count}
use kvslab.Radix.Clear.{destroy_tree}
use kvslab.Pool.{num_used}
use kvslab.Manager.Teardown.{destroy_tree-Healthy, refs-num_used}
use kvslab.Manager.System.Steps.{run-Sound}

pub Reach-Sound : {start s : System} → IsSound start → Reach start s → IsSound s
Reach-Sound sound at_start = sound
Reach-Sound sound (onward r c e) = Returns-at (run-Sound (Reach-Sound sound r) c) e

-- A manager with no handle out.
abbrev pub fresh_system : Manager → System
fresh_system m = record { manager = m; handles = [] }

-- The block is not one that the handle has beside its cached front, or else the handle has the one
-- reference to it, and it stands once in the handle's table.
abbrev pub Alone : System → Allocation → List Allocation → ℕ → Type 0
Alone s a rest b =
    (count b (fresh_blocks a) ≡ 0)
    ⊎ ((refs s.manager.pool b ≡ 1)
        × (count b a.blocks ≡ 1)
        × (held_by rest b ≡ 0)
        × (stored b s.manager.tree.children ≡ 0))

Sound-Alone :
    {s : System} {a : Allocation} {rest : List Allocation}
    → IsSound s
    → Takes a s.handles rest
    → (b : ℕ) → Alone s a rest b
Sound-Alone {a} {rest} sound t b = elim (Bool-cases (count b (fresh_blocks a) == 0)) [
  | inl none_of ↦ inl (ground arith)
  | inr some_of ↦
      let some_b : 0 < count b (fresh_blocks a) = ground arith in
      let held = Takes-held t b in
      let (one, uncached) = sound.apart b (omega (arith, held, some_b)) in
      let all_mine = count-stored sound t b in
      inr (
        omega (arith, sound.serving.steady.sound.owned b, one, uncached),
        omega (arith, all_mine, uncached, held, one, some_b, fresh-count a b),
        omega (arith, held, one, some_b),
        uncached,
      )
]

module _ (threads : ℕ) (raw : Bytes) (spec : TierSpec) (specs : List TierSpec) (cfg : CacheConfig)
    (options : Options) (accepted : AllAccepted cfg (spec ∷ specs))
    (few : block_total (spec ∷ specs) < 2 ^ 32) (some_tokens : 0 < cfg.block_tokens) {m : Manager}
    (start : tiered threads raw (spec ∷ specs) cfg options ≡ ok m) {s : System}
    (reach : Reach (fresh_system m) s) where
  -- From the constructor on, under the conditions of `tiered-Serving` and whatever the callers and the
  -- workers do in whatever order, the invariant of the manager holds with exactly the references and
  -- the pins of the handles that are out, the cached front of each of these lies on the way to its
  -- pinned node, and a block that one of them has a reference to is no other's and not cached.
  pub tiered-Reach-IsSound : IsSound s
  tiered-Reach-IsSound =
      let k =
        Returns-at (tiered-Serving threads raw spec specs cfg options accepted few some_tokens)
          start in
      Reach-Sound (record { serving = k.0; out = tt; apart = λ b some_b. absurd (omega arith) })
        reach

  -- In each state that is reached from the constructor no call fails: `acquire`, and for a handle that
  -- is out `release`, the destructor and `ready`, where the sizes given them fit the counters, nor
  -- does a turn that a worker can take. Each leads to a state that is reached.
  pub tiered-Reach-run : (c : Call s) → Returns (Reach (fresh_system m)) (run s c)
  tiered-Reach-run c = let (t, e, k) = run-Sound tiered-Reach-IsSound c in (t, e, onward reach c e)

  -- In each state that is reached from the constructor and has no handle out, the destructor of the tree
  -- returns, and no block has a reference after it: nothing leaks.
  pub tiered-Reach-destroy_tree :
      s.handles ≡ []
      → Returns
          (λ p. ((b : ℕ) → refs p b ≡ 0) × (num_used p ≡ 0))
          (destroy_tree s.manager.pool s.manager.tree)
  tiered-Reach-destroy_tree no_handle =
      let (p, e, (h, left)) = destroy_tree-Healthy tiered-Reach-IsSound.serving in
      let nothing : (b : ℕ) → refs p b ≡ 0 =
        λ b. left b ∙ ap (λ (hs : List Allocation). held_by hs b) no_handle in
      (p, e, (nothing, refs-num_used h nothing))

  -- In each state that is reached from the constructor, each block of the table of a handle that is out
  -- is in use, and each that it holds beside its cached front has one reference: it stands once in the
  -- table, is held by no other handle, and is not in the tree.
  pub tiered-Reach-Alone :
      {a : Allocation} {rest : List Allocation}
      → Takes a s.handles rest
      → AllUsed s.manager.pool a.blocks × ((b : ℕ) → Alone s a rest b)
  tiered-Reach-Alone t = (Takes-AllUsed tiered-Reach-IsSound t, Sound-Alone tiered-Reach-IsSound t)

  -- In each state that is reached from the constructor, a block with references is in a slot that is not
  -- free and that no job has reserved, and no other block with references is in the same slot.
  pub tiered-Reach-exclusive :
      (i c : ℕ) (loc : Location)
      → get_elem? s.manager.pool.refcount i ≡ some (suc c)
      → get_elem? s.manager.pool.location i ≡ some loc
      → (free_of s.manager.pool.tiers loc.tier loc.slot ≡ 0)
        × (reserved loc.tier loc.slot s.manager.pool.jobs ≡ 0)
        × ((k : ℕ)
            → (k ≡ i)
              ⊎ (refs s.manager.pool k ≡ 0)
              ⊎ (get_elem? s.manager.pool.location k ≢ some loc))
  tiered-Reach-exclusive i c loc r l =
      let p = s.manager.pool in
      let v = tiered-Reach-IsSound.serving.healthy.inv.storage in
      let one = occupants-le loc.tier loc.slot p.location p.refcount i loc (suc c) l r in
      let all = v.slots loc.tier loc.slot in
      (
        ground (arith, one, all),
        ground (arith, one, all),
        λ k. elim (Bool-cases (k == i)) [
          | inl same ↦ inl (ground arith)
          | inr other ↦ elim (Bool-cases (refs p k == 0)) [
            | inl unused ↦ inr (inl (ground arith))
            | inr used ↦
                let some_refs : refs p k ≡ suc (refs p k - 1) = ground arith in
                let r' = refs-some (get_elem? p.refcount k) (refs p k - 1) some_refs in
                inr (
                  inr (λ l'.
                    used-exclusive v i k c (refs p k - 1) loc loc (λ e. ground arith) r l r' l'
                      refl))
          ]
        ],
      )
