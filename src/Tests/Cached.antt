-- ===== src/Tests/Cached.antt =====
-- A manager that is at work: the tree caches the tokens 5, 6 in block 0, and one handle, which pins that
-- node, has block 1 for the tokens behind them.
use kvslab.Base.{
  ℕ, zero, suc, ◌+◌, ◌*◌, ◌^◌, ◌≤◌, ◌<◌, ◌≡◌, refl, sym, ap, ◌∙◌, true, false, some, [], ◌∷◌, arith,
  ◌==◌, if◌then◌else◌, get_elem?,
}
use kvslab.Pool.{grant}
use kvslab.Pool.State.{TierState, Job, Pool, put_free}
use kvslab.Pool.Inv.{Inv}
use kvslab.Pool.Basic.{grant-Inv}
use kvslab.Pool.Copy.{Sized}
use kvslab.Pool.Refs.{refs}
use kvslab.Pool.Health.{Healthy}
use kvslab.Pool.Queue.Worker.{Cursor}
use kvslab.Radix.State.{Node, end, child, Tree, first_key}
use kvslab.Radix.WellFormed.{WellFormed, nodes_at, stored}
use kvslab.Radix.Sound.{Sound}
use kvslab.Radix.Steady.{Steady}
use kvslab.Radix.Pin.Count.{weight}
use kvslab.Manager.{Manager, Allocation, no_stats}
use kvslab.Manager.Serving.{Serving}
use kvslab.Types.{block_bytes}
use kvslab.Tests.Samples.{cfg, near_state, far_state, home, one_used, one_used-Inv}

-- Two blocks of the compute tier.
abbrev pub two_used : Pool
two_used = record one_used {
  tiers = near_state [] ∷ far_state (0 ∷ 1 ∷ []) ∷ [];
  location = home ∷ record { tier = 0; slot = 1 } ∷ home ∷ home ∷ [];
  refcount = 1 ∷ 1 ∷ 0 ∷ 0 ∷ [];
  free_ids = 2 ∷ 3 ∷ [];
}

pub two_used-Inv : Inv two_used []
unfolding grant put_free
two_used-Inv = grant-Inv one_used-Inv (near_state (1 ∷ [])) refl refl refl

two_used-Sized : Sized two_used
unfolding block_bytes
two_used-Sized = record { fits = fits }
  where
    fits :
        (t : ℕ) (ts : TierState)
        → get_elem? two_used.tiers t ≡ some ts
        → (ts.num_blocks * block_bytes cfg ≤ ts.tier.capacity) × (ts.tier.capacity < 2 ^ 64)
    fits zero ts h = ground arith
    fits (suc zero) ts h = ground arith
    fits (suc (suc t)) ts h = cc

pub no_jobs : (i : ℕ) (j : Job) → get_elem? {A = Job} [] i ≡ some j → ⊥
no_jobs i j h = cc

pub idle-Cursor : {p : Pool} → p.jobs ≡ [] → p.next_unclaimed ≡ 0 → Cursor p
idle-Cursor {p} e f = record {
  within = rw (e, f) (omega arith);
  unclaimed = λ i j h le. absurd (no_jobs i j (ap (λ js. get_elem? js i) (sym e) ∙ h));
  taken = λ i j h lt. absurd (no_jobs i j (ap (λ js. get_elem? js i) (sym e) ∙ h));
}

pub two_used-Healthy : Healthy two_used
two_used-Healthy = record {
  inv = two_used-Inv;
  sized = two_used-Sized;
  cursor = idle-Cursor refl refl;
  mapped = tt;
  some_tier = omega arith;
  staffed = λ some_job. absurd (omega arith);
  sources = λ i j h. absurd cc;
}

-- The node of block 0, with `c` pins.
abbrev pub cached_node : ℕ → Node
cached_node c = record {
  ptr = 1;
  tokens = 5 ∷ 6 ∷ [];
  blocks = 0 ∷ [];
  lock_count = c;
  last_access = 1;
}

abbrev pub cached : ℕ → Tree
cached c = record {
  block_tokens = 2;
  children = child (first_key 2 (5 ∷ 6 ∷ [])) (cached_node c) end end;
  root_access = 0;
  clock = 1;
  stored_blocks = 1;
  num_nodes = 1;
  collisions = 0;
  next_ptr = 2;
}

cached-WellFormed : (c : ℕ) → WellFormed 2 2 (cached c).children
unfolding nodes_at
cached-WellFormed c = record {
  started = omega arith;
  aligned = (refl, omega arith, tt, tt);
  keyed = (refl, tt, tt, tt);
  distinct = λ p. ground arith;
  unused = λ p le. ground arith;
  not_root = refl;
}

abbrev pub nobody : ℕ → ℕ
nobody b = 0

-- One, at `1`.
abbrev pub just_one : ℕ → ℕ
just_one b = if b == 1 then 1 else 0

-- Only the tree has a block.
pub cached-Sound : Sound nobody one_used (cached 0)
unfolding refs stored
cached-Sound = record {
  pool = one_used-Inv;
  formed = cached-WellFormed 0;
  owned = owned;
  some_tokens = omega arith;
}
  where
    owned : (b : ℕ) → refs one_used b ≡ stored b (cached 0).children + nobody b
    owned zero = refl
    owned (suc zero) = refl
    owned (suc (suc zero)) = refl
    owned (suc (suc (suc zero))) = refl
    owned (suc (suc (suc (suc b)))) = ground arith

pub cached-Steady : Steady nobody nobody one_used (cached 0)
unfolding weight
cached-Steady = record {
  sound = cached-Sound;
  counted = (refl, tt, tt);
  present = λ q h. absurd (omega arith);
}

abbrev pub at_work : Manager
at_work = record {
  cfg = cfg;
  pool = two_used;
  tree = cached 1;
  stats = no_stats;
  options = record { spill_watermark = 1; async_promotion = false };
}

abbrev pub handle : Allocation
handle = record {
  ok = true;
  cached_tokens = 2;
  cached_blocks = 1;
  blocks = 0 ∷ 1 ∷ [];
  pinned = some 1;
  owned = true;
}

pub at_work-Serving : Serving just_one just_one at_work
unfolding refs stored weight nodes_at
at_work-Serving = record {
  healthy = two_used-Healthy;
  steady = record {
    sound = record {
      pool = two_used-Inv;
      formed = cached-WellFormed 1;
      owned = owned;
      some_tokens = omega arith;
    };
    counted = (refl, tt, tt);
    present = λ q h. ground arith;
  };
  same_tokens = refl;
}
  where
    owned : (b : ℕ) → refs two_used b ≡ stored b (cached 1).children + just_one b
    owned zero = refl
    owned (suc zero) = refl
    owned (suc (suc zero)) = refl
    owned (suc (suc (suc zero))) = refl
    owned (suc (suc (suc (suc b)))) = ground arith
