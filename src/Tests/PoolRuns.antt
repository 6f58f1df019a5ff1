-- ===== src/Tests/PoolRuns.antt =====
-- The theorems of BlockPool at the sample pools, and runs of its operations.
use kvslab.Base.{ℕ, zero, suc, ◌*◌, ◌≤◌, ◌≡◌, refl, true, some, [], ◌∷◌, arith, get_elem?, Returns}
use kvslab.Types.{block_bytes}
use kvslab.Tier.{memcpy}
use kvslab.Pool.{allocate, migrate, decref, copy_block}
use kvslab.Pool.State.{Job, queued}
use kvslab.Pool.Setup.{init}
use kvslab.Pool.Setup.Start.{Fresh, init-Fresh}
use kvslab.Pool.Inv.{Inv}
use kvslab.Pool.Copy.{copy_block_lem}
use kvslab.Pool.Basic.{Allocated, allocate-Allocated}
use kvslab.Pool.Release.{decref-Inv}
use kvslab.Pool.Migrate.{Migrated, migrate-Migrated}
use kvslab.Pool.Queue.{claim, migrate_async}
use kvslab.Pool.Queue.Async.{Started, migrate_async-Started}
use kvslab.Pool.Queue.Worker.{Cursor, claim-Inv}
use kvslab.Tests.Samples.{
  cfg, zeros, near_spec, specs, specs-AllAccepted, near_state, far_state, far, near, numbered,
  empty, one_used, one_used-Inv, one_used-Sized, home, moving, moving-Inv,
}

init-Fresh_example : Returns (Fresh (near_spec ∷ specs)) (init 8 zeros (near_spec ∷ specs) cfg)
init-Fresh_example = init-Fresh 8 zeros near_spec specs cfg specs-AllAccepted (omega arith)

allocate-Allocated_example :
    Returns (Allocated one_used [] (near_state (1 ∷ []))) (allocate one_used)
allocate-Allocated_example = allocate-Allocated one_used-Inv (near_state (1 ∷ [])) refl

decref-Inv_example :
    Returns
      (λ (freed, q). Inv q q.jobs × (freed ≡ true) × (q.refcount ≡ 0 ∷ 0 ∷ 0 ∷ 0 ∷ []))
      (decref moving 0)
decref-Inv_example = decref-Inv moving-Inv 0 0 refl

migrate-Migrated_example :
    Returns
      (λ (moved, q). Migrated one_used 0 1 home (far_state (0 ∷ 1 ∷ [])) moved q)
      (migrate one_used 0 1)
migrate-Migrated_example =
    migrate-Migrated one_used-Inv one_used-Sized 0 0 home 1 (far_state (0 ∷ 1 ∷ [])) refl refl refl

migrate_async-Started_example :
    Returns
      (λ (started, q). Started moving 0 home 1 (far_state (1 ∷ [])) (near_state (1 ∷ [])) started q)
      (migrate_async moving 0 1)
migrate_async-Started_example =
    migrate_async-Started moving-Inv 0 0 home 1 (far_state (1 ∷ [])) (near_state (1 ∷ [])) refl refl
      refl refl

moving-Cursor : Cursor moving
moving-Cursor = record {
  within = omega arith;
  unclaimed = unclaimed;
  taken = λ i j h lt. absurd (omega (arith, lt));
}
  where
    unclaimed : (i : ℕ) (j : Job) → get_elem? moving.jobs i ≡ some j → 0 ≤ i → j.phase ≡ queued
    unclaimed zero j h le = ground arith
    unclaimed (suc i) j h le = cc

claim-Inv_example : Returns (λ q. Inv q q.jobs × Cursor q) (claim moving)
claim-Inv_example = claim-Inv moving-Inv moving-Cursor

copy_block_lem_example :
    Returns
      (λ (b, t). t ≡ record far {
        arena = memcpy (block_bytes cfg) zeros (1 * block_bytes cfg) numbered (0 * block_bytes cfg);
      })
      (copy_block empty near 0 far 1)
unfolding block_bytes
copy_block_lem_example =
    copy_block_lem empty near 0 far 1 2 2 (omega arith) (omega arith) (omega arith) (omega arith)
      (omega arith) (omega arith)
