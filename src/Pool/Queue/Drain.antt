-- ===== src/Pool/Queue/Drain.antt =====
-- `drain_migrations` keeps the invariant of BlockPool.
use kvslab.Base.{
  ℕ, suc, ◌+◌, ◌^◌, ◌≤◌, ◌<◌, ◌≡◌, refl, ◌∙◌, ◌≢◌, inl, inr, some, List, [], ◌∷◌, ◌++◌, arith,
  sub64, Bool-cases, length, get_elem?, length-set, get_elem?-set_ne, for_each, Returns,
}
use kvslab.Pool.State.{Location, TierState, Job, Pool, put_free}
use kvslab.Pool.Slots.{reserved, occupants-set, set_same}
use kvslab.Pool.Free.{free_of-some, free_of-set, size_of-set, size_of-pos, sum_free-set}
use kvslab.Pool.Inv.{Storage, InFlight, Queued, Inv}
use kvslab.Pool.Release.{used_tier}
use kvslab.Pool.Cancel.{find-erase_ne}
use kvslab.Pool.Queue.{settle, drop_slot, land, finished, unfinished, drain_migrations}

-- A queue without its first job.
Queued-tail : {p : Pool} {j : Job} {js : List Job} → Queued p (j ∷ js) → Queued p js
Queued-tail v = record {
  in_flight = λ i. v.in_flight (suc i);
  fresh = λ i. v.fresh (suc i);
  distinct = λ i k a b h g q. omega (arith, v.distinct (suc i) (suc k) a b h g q);
}

module _ {p : Pool} {j : Job} {js : List Job} (v : Inv p (j ∷ js)) where
  dst_state : (ts : TierState) × (get_elem? p.tiers j.dst_tier ≡ some ts)
  unfolding reserved
  dst_state = size_of-pos p.tiers j.dst_tier (ground (arith, v.storage.slots j.dst_tier j.dst_slot))

  module _ (ts : TierState) (h : get_elem? p.tiers j.dst_tier ≡ some ts) where
    drop_slot-Inv : Inv (drop_slot p j ts) js
    unfolding drop_slot put_free reserved
    drop_slot-Inv =
        let w = v.storage in
        let new : TierState = record ts { free_slots = j.dst_slot ∷ ts.free_slots } in
        record {
          storage = record {
            sizes = w.sizes;
            slots = λ t s. ground (
              arith,
              w.slots t s,
              free_of-some p.tiers j.dst_tier ts h s,
              free_of-set p.tiers j.dst_tier ts h new t s,
              size_of-set p.tiers j.dst_tier ts h new t refl,
            );
            ids = w.ids;
            balance = ground (arith, w.balance, sum_free-set p.tiers j.dst_tier ts new h);
            population = w.population;
            valid_ids = w.valid_ids;
          };
          queue = record {
            in_flight = λ i k g c.
                let f = v.queue.in_flight (suc i) k g c in
                record {
                  mapped = f.mapped;
                  loc = f.loc;
                  others = f.others;
                  located = f.located;
                  used = f.used;
                  leaves = f.leaves;
                  from_tier = f.from_tier;
                  from_slot = f.from_slot;
                };
            fresh = (Queued-tail v.queue).fresh;
            distinct = (Queued-tail v.queue).distinct;
          };
        }

  module _ (f : InFlight p j) (src : TierState) (h : get_elem? p.tiers f.loc.tier ≡ some src) where
    abbrev there : Location
    there = record { tier = j.dst_tier; slot = j.dst_slot }

    land-Storage : Storage (land p j f.loc src) js
    unfolding land put_free reserved
    land-Storage =
        let w = v.storage in
        let loc : Location = f.loc in
        let new : TierState = record src { free_slots = loc.slot ∷ src.free_slots } in
        record {
          sizes = omega (arith, w.sizes, length-set p.location j.id there);
          slots = λ t s. ground (
            arith,
            w.slots t s,
            free_of-some p.tiers loc.tier src h s,
            free_of-set p.tiers loc.tier src h new t s,
            size_of-set p.tiers loc.tier src h new t refl,
            set_same p.refcount j.id (suc f.others) f.used,
            occupants-set t s p.location p.refcount j.id loc there (suc f.others) (suc f.others)
                f.located f.used,
          );
          ids = w.ids;
          balance = ground (arith, w.balance, sum_free-set p.tiers loc.tier src new h);
          population = w.population;
          valid_ids = w.valid_ids;
        }

    -- The other live jobs are for other blocks, since the map has one job for a block.
    land-Queued : Queued (land p j f.loc src) js
    unfolding land
    land-Queued = record {
      in_flight = λ i k g c.
          let e = v.queue.in_flight (suc i) k g c in
          let other : j.id ≢ k.id = λ q.
            let same : j.ref ≡ k.ref = ground (arith, f.mapped, e.mapped, q) in
            absurd (omega (arith, v.queue.distinct 0 (suc i) j k refl g same)) in
          record {
            mapped = find-erase_ne j.id k.id p.migrating other ∙ e.mapped;
            loc = e.loc;
            others = e.others;
            located = get_elem?-set_ne p.location j.id k.id there other ∙ e.located;
            used = e.used;
            leaves = e.leaves;
            from_tier = e.from_tier;
            from_slot = e.from_slot;
          };
      fresh = (Queued-tail v.queue).fresh;
      distinct = (Queued-tail v.queue).distinct;
    }

-- What settling a job leaves for the rest of the drain.
pub record Settled (p : Pool) (js : List Job) (q : Pool) : Type 0 where
  pub inv : Inv q js
  pub jobs : q.jobs ≡ p.jobs
  pub refcount : q.refcount ≡ p.refcount
  pub free_ids : q.free_ids ≡ p.free_ids
  pub cursor : q.next_unclaimed ≡ p.next_unclaimed

pub settle-Settled :
    (p : Pool) (j : Job) (js : List Job) → Inv p (j ∷ js) → Returns (Settled p js) (settle p j)
unfolding settle
settle-Settled p j js v = elim (Bool-cases j.cancelled) [
  | inl c ↦
      let (ts, h) = dst_state v in
      (
        drop_slot p j ts,
        ground arith,
        unfold drop_slot in
            record {
              inv = drop_slot-Inv v ts h;
              jobs = refl;
              refcount = refl;
              free_ids = refl;
              cursor = refl;
            },
      )
  | inr c ↦
      let f = v.queue.in_flight 0 j refl c in
      let (src, h) = used_tier v.storage j.id f.others f.loc f.used f.located in
      (
        land p j f.loc src,
        ground (arith, f.located, h),
        unfold land in
            record {
              inv = record { storage = land-Storage v f src h; queue = land-Queued v f src h };
              jobs = refl;
              refcount = refl;
              free_ids = refl;
              cursor = refl;
            },
      )
]

-- The invariant reads the queue from its second argument alone.
pub with_queue :
    {p : Pool} {js : List Job} (jobs : List Job) (n : ℕ)
    → Inv p js
    → Inv (record p { jobs = jobs; next_unclaimed = n }) js
with_queue jobs n v = record {
  storage = record {
    sizes = v.storage.sizes;
    slots = v.storage.slots;
    ids = v.storage.ids;
    balance = v.storage.balance;
    population = v.storage.population;
    valid_ids = v.storage.valid_ids;
  };
  queue = record {
    in_flight = λ i j h c.
        let f = v.queue.in_flight i j h c in
        record {
          mapped = f.mapped;
          loc = f.loc;
          others = f.others;
          located = f.located;
          used = f.used;
          leaves = f.leaves;
          from_tier = f.from_tier;
          from_slot = f.from_slot;
        };
    fresh = v.queue.fresh;
    distinct = v.queue.distinct;
  };
}

Settled-trans : {p q s : Pool} {js ks : List Job} → Settled p js q → Settled q ks s → Settled p ks s
Settled-trans a b = record {
  inv = b.inv;
  jobs = b.jobs ∙ a.jobs;
  refcount = b.refcount ∙ a.refcount;
  free_ids = b.free_ids ∙ a.free_ids;
  cursor = b.cursor ∙ a.cursor;
}

settle_all :
    (p : Pool) (fs js : List Job) → Inv p (fs ++ js) → Returns (Settled p js) (for_each settle fs p)
settle_all p [] js v =
    (p, refl, record { inv = v; jobs = refl; refcount = refl; free_ids = refl; cursor = refl })
settle_all p (j ∷ fs) js v =
    let (q, e, s) = settle-Settled p j (fs ++ js) v in
    let (t, f, u) = settle_all q fs js s.inv in (t, rw (e, for_each) f, Settled-trans s u)

pub finished-append-unfinished : (js : List Job) → finished js ++ unfinished js ≡ js
unfolding finished unfinished
finished-append-unfinished [] = refl
finished-append-unfinished (j ∷ js) = ground (arith, finished-append-unfinished js)

-- What `drain_migrations` does to a pool.
pub record Drained (p q : Pool) : Type 0 where
  pub inv : Inv q q.jobs
  pub jobs : q.jobs ≡ unfinished p.jobs
  pub refcount : q.refcount ≡ p.refcount
  pub free_ids : q.free_ids ≡ p.free_ids
  pub cursor : q.next_unclaimed + length (finished p.jobs) ≡ p.next_unclaimed

-- Where the claim cursor covers the finished jobs at the front of the queue, and has not wrapped,
-- `drain_migrations` does not fail: it takes exactly these jobs off the queue and moves the cursor
-- back by their number, changes no count and no free id, and keeps the invariant.
pub drain-Drained :
    (p : Pool)
    → Inv p p.jobs
    → length (finished p.jobs) ≤ p.next_unclaimed
    → p.next_unclaimed < 2 ^ 64
    → Returns (Drained p) (drain_migrations p)
unfolding drain_migrations
drain-Drained p v le lt =
    let js = unfinished p.jobs in
    let n = sub64 p.next_unclaimed (length (finished p.jobs)) in
    let whole : Inv p (finished p.jobs ++ js) = rw (finished-append-unfinished p.jobs) v in
    let (q, e, s) = settle_all _ (finished p.jobs) js (with_queue js n whole) in
    (
      q,
      e,
      record {
        inv = rw s.jobs s.inv;
        jobs = s.jobs;
        refcount = s.refcount;
        free_ids = s.free_ids;
        cursor = omega (arith, s.cursor);
      },
    )
