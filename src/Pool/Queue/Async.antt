-- ===== src/Pool/Queue/Async.antt =====
-- `migrate_async` keeps the invariant of BlockPool.
use native.Mathlib.Decide.{ℕ_discrete}
use kvslab.Base.{
  ℕ, suc, ◌+◌, ◌≡◌, refl, ◌≢◌, ◌⊎◌, inl, inr, Bool, true, false, ◌&&◌, not, none, some, List, [],
  ◌∷◌, arith, ◌==◌, if◌then◌else◌, Bool-cases, Option-cases, length, get_elem?, is_empty,
  length-append, get_elem?-lt, get_elem?-append_one, Returns,
}
use kvslab.Pool.{migrating?}
use kvslab.Pool.State.{Location, TierState, Job, Pool, find, put_free}
use kvslab.Pool.Slots.{reserved-append}
use kvslab.Pool.Free.{free_of-some, free_of-set, size_of-set, sum_free-set}
use kvslab.Pool.Inv.{Storage, InFlight, Queued, Inv}
use kvslab.Pool.Migrate.{locate-some}
use kvslab.Pool.Queue.{enqueue, new_job, ensure_worker, try_enqueue, async_located, migrate_async}

-- The threads are not part of the invariant.
ensure_worker-Inv : (p : Pool) → Inv p p.jobs → Inv (ensure_worker p) (ensure_worker p).jobs
unfolding ensure_worker
ensure_worker-Inv p v = record {
  storage = record {
    sizes = v.storage.sizes;
    slots = v.storage.slots;
    ids = v.storage.ids;
    balance = v.storage.balance;
    population = v.storage.population;
    valid_ids = v.storage.valid_ids;
  };
  queue = record {
    in_flight = λ i j h c.
        let f = v.queue.in_flight i j h c in
        record {
          mapped = f.mapped;
          loc = f.loc;
          others = f.others;
          located = f.located;
          used = f.used;
          leaves = f.leaves;
          from_tier = f.from_tier;
          from_slot = f.from_slot;
        };
    fresh = v.queue.fresh;
    distinct = v.queue.distinct;
  };
}

module _ {p : Pool} (v : Inv p p.jobs) (id c : ℕ) (loc : Location) (dst : ℕ) (ts : TierState)
    (r : get_elem? p.refcount id ≡ some (suc c)) (l : get_elem? p.location id ≡ some loc)
    (k : get_elem? p.tiers dst ≡ some ts) (other : loc.tier ≢ dst)
    (unmapped : find id p.migrating ≡ none) (slot : ℕ) (rest : List ℕ)
    (e : ts.free_slots ≡ slot ∷ rest) where
  abbrev job : Job
  job = new_job p id dst loc slot

  abbrev after : Pool
  after = enqueue p id dst loc ts slot rest

  enqueue-Storage : Storage after after.jobs
  unfolding enqueue put_free
  enqueue-Storage =
      let w = v.storage in
      let new : TierState = record ts { free_slots = rest } in
      record {
        sizes = w.sizes;
        slots = λ t s. ground (
          arith,
          w.slots t s,
          free_of-some p.tiers dst ts k s,
          free_of-set p.tiers dst ts k new t s,
          size_of-set p.tiers dst ts k new t refl,
          reserved-append t s p.jobs job,
        );
        ids = w.ids;
        balance =
            ground (
              arith,
              w.balance,
              sum_free-set p.tiers dst ts new k,
              length-append p.jobs (job ∷ []),
            );
        population = w.population;
        valid_ids = w.valid_ids;
      }

  old-InFlight : (j : Job) → InFlight p j → InFlight after j
  unfolding enqueue find
  old-InFlight j f = record {
    mapped = ground (arith, f.mapped, unmapped);
    loc = f.loc;
    others = f.others;
    located = f.located;
    used = f.used;
    leaves = f.leaves;
    from_tier = f.from_tier;
    from_slot = f.from_slot;
  }

  new-InFlight : InFlight after job
  unfolding enqueue find
  new-InFlight = record {
    mapped = ground arith;
    loc = loc;
    others = c;
    located = l;
    used = r;
    leaves = other;
    from_tier = refl;
    from_slot = refl;
  }

  -- A job of the new queue is the new one, at the end, or one of the old.
  enqueued :
      (i : ℕ) (j : Job)
      → get_elem? after.jobs i ≡ some j
      → ((i ≡ length p.jobs) × (j ≡ job)) ⊎ (get_elem? p.jobs i ≡ some j)
  unfolding enqueue
  enqueued i j h = ground (arith, get_elem?-append_one p.jobs job i)

  enqueue-Queued : Queued after after.jobs
  unfolding enqueue
  enqueue-Queued = record {
    in_flight = λ i j h n. elim (enqueued i j h) [
      | inl (q, s) ↦ rw s new-InFlight
      | inr g ↦ old-InFlight j (v.queue.in_flight i j g n)
    ];
    fresh = λ i j h. ground (arith, enqueued i j h, v.queue.fresh i j);
    distinct = λ i n a b h g q. ground (
      arith,
      enqueued i a h,
      enqueued n b g,
      v.queue.fresh i a,
      v.queue.fresh n b,
      v.queue.distinct i n a b,
    );
  }

-- What `migrate_async` promises for a block in use.
pub record Started (p : Pool) (id : ℕ) (loc : Location) (dst : ℕ) (ts : TierState) (src : TierState)
    (started : Bool) (q : Pool) : Type 0 where
  pub inv : Inv q q.jobs
  -- It starts a copy unless the block is there, or is on its way, the tier is full, or one of the
  -- tiers cannot be addressed.
  pub answer : started ≡ (
      not (loc.tier == dst)
      && not (migrating? p id)
      && not (is_empty ts.free_slots)
      && (src.tier.addressable && ts.tier.addressable))
  pub location : q.location ≡ p.location
  pub refcount : q.refcount ≡ p.refcount
  pub pending : length q.jobs ≡ length p.jobs + (if started then 1 else 0)

module _ {p : Pool} (v : Inv p p.jobs) (id c : ℕ) (loc : Location) (dst : ℕ) (ts src : TierState)
    (r : get_elem? p.refcount id ≡ some (suc c)) (l : get_elem? p.location id ≡ some loc)
    (k : get_elem? p.tiers dst ≡ some ts) (h : get_elem? p.tiers loc.tier ≡ some src) where
  abbrev Outcome : Bool × Pool → Type 0
  Outcome (b, q) = Started p id loc dst ts src b q

  refused :
      false ≡ (
        not (loc.tier == dst)
        && not (migrating? p id)
        && not (is_empty ts.free_slots)
        && (src.tier.addressable && ts.tier.addressable))
      → Started p id loc dst ts src false p
  refused e = record {
    inv = v;
    answer = e;
    location = refl;
    refcount = refl;
    pending = omega arith;
  }

  started :
      loc.tier ≢ dst
      → find id p.migrating ≡ none
      → (slot : ℕ) (rest : List ℕ) → ts.free_slots ≡ slot ∷ rest
      → (src.tier.addressable && ts.tier.addressable) ≡ true
      → Started p id loc dst ts src true (ensure_worker (enqueue p id dst loc ts slot rest))
  unfolding enqueue ensure_worker migrating?
  started d u slot rest e y = record {
    inv = ensure_worker-Inv (enqueue p id dst loc ts slot rest) (record {
      storage = enqueue-Storage v id c loc dst ts r l k d u slot rest e;
      queue = enqueue-Queued v id c loc dst ts r l k d u slot rest e;
    });
    answer = ground arith;
    location = refl;
    refcount = refl;
    pending = omega (arith, length-append p.jobs (new_job p id dst loc slot ∷ []));
  }

  with_slot :
      loc.tier ≢ dst
      → find id p.migrating ≡ none
      → (slot : ℕ) (rest : List ℕ) → ts.free_slots ≡ slot ∷ rest
      → Returns Outcome (try_enqueue p id dst loc ts slot rest)
  unfolding try_enqueue
  with_slot d u slot rest e = elim (Bool-cases (src.tier.addressable && ts.tier.addressable)) [
    | inl y ↦ (
      (true, ensure_worker (enqueue p id dst loc ts slot rest)),
      ground arith,
      started d u slot rest e y,
    )
    | inr n ↦ ((false, p), ground arith, refused (ground arith))
  ]

  with_free :
      loc.tier ≢ dst
      → find id p.migrating ≡ none
      → (free : List ℕ) → ts.free_slots ≡ free
      → Returns Outcome (async_located p id dst loc)
  unfolding async_located migrating?
  with_free d u [] e = ((false, p), ground arith, refused (ground arith))
  with_free d u (slot ∷ rest) e = let (x, f, g) = with_slot d u slot rest e in (x, ground arith, g)

  dispatched : Returns Outcome (async_located p id dst loc)
  unfolding async_located migrating?
  dispatched = elim (ℕ_discrete loc.tier dst) [
    | yes e ↦ ((false, p), ground arith, refused (ground arith))
    | no d ↦ elim (Option-cases (find id p.migrating)) [
      | inl u ↦ with_free d u ts.free_slots refl
      | inr (n, m) ↦ ((false, p), ground arith, refused (ground arith))
    ]
  ]

  -- `migrate_async` of a block in use, to a tier of the pool, does not fail, keeps the invariant and
  -- moves nothing yet. It queues one job and answers true exactly when the block is elsewhere and
  -- not on its way, the tier has a free slot, and both tiers can be addressed.
  pub migrate_async-Started : Returns Outcome (migrate_async p id dst)
  unfolding migrate_async
  migrate_async-Started =
      let (x, f, g) = dispatched in
      (x, ground (arith, locate-some p id c loc r l, get_elem?-lt p.tiers dst k), g)
