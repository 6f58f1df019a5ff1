-- ===== src/Pool/Release.antt =====
-- `decref` keeps the invariant of BlockPool.
use kvslab.Base.{
  ℕ, zero, suc, ◌-◌, ◌≡◌, refl, sym, ap, ◌∙◌, ◌≢◌, true, false, some, List, ◌∷◌, arith, ◌==◌,
  get_elem?, set, length-set, get_elem?-lt, get_elem?-set_ne, get_elem?-set, ok, Returns,
}
use kvslab.Pool.{cancel_migration, give_back, decref}
use kvslab.Pool.State.{Location, TierState, Job, Pool, put_free}
use kvslab.Pool.Slots.{occupants-set, occupants-le, set_same, live-set}
use kvslab.Pool.Free.{free_of-some, free_of-set, size_of-set, size_of-pos, sum_free-set}
use kvslab.Pool.Inv.{Storage, Queued, Inv}
use kvslab.Pool.Basic.{recount, used_location, recount-Storage, recount-Queued}
use kvslab.Pool.Cancel.{Idle, cancel-Inv, cancel-SameStore}

-- The tier of a block in use is one of the pool's.
pub used_tier :
    {p : Pool} {js : List Job} (v : Storage p js) (id c : ℕ) (loc : Location)
    → get_elem? p.refcount id ≡ some (suc c)
    → get_elem? p.location id ≡ some loc
    → (ts : TierState) × (get_elem? p.tiers loc.tier ≡ some ts)
used_tier {p} v id c loc r l = size_of-pos p.tiers loc.tier (
    ground (
      arith,
      v.slots loc.tier loc.slot,
      occupants-le loc.tier loc.slot p.location p.refcount id loc (suc c) l r,
    ))

-- The pool after the last reference to a block is gone.
abbrev pub released : Pool → ℕ → Location → TierState → Pool
released p id loc ts = give_back (recount p id 0) id loc ts

module _ {p : Pool} {js : List Job} (v : Storage p js) (id : ℕ)
    (r : get_elem? p.refcount id ≡ some 1) (loc : Location) (l : get_elem? p.location id ≡ some loc)
    (ts : TierState) (h : get_elem? p.tiers loc.tier ≡ some ts) where
  released-Storage : Storage (released p id loc ts) js
  unfolding give_back put_free
  released-Storage =
      let new : TierState = record ts { free_slots = loc.slot ∷ ts.free_slots } in
      record {
        sizes = omega (arith, v.sizes, length-set p.refcount id 0);
        slots = λ t s. ground (
          arith,
          set_same p.location id loc l,
          v.slots t s,
          free_of-some p.tiers loc.tier ts h s,
          free_of-set p.tiers loc.tier ts h new t s,
          size_of-set p.tiers loc.tier ts h new t refl,
          occupants-set t s p.location p.refcount id loc loc 1 0 l r,
        );
        ids = λ k. ground (
          arith,
          v.ids k,
          length-set p.refcount id 0,
          get_elem?-set p.refcount id k 0,
          get_elem?-lt p.refcount id r,
        );
        balance = ground (arith, v.balance, sum_free-set p.tiers loc.tier ts new h);
        population =
            ground (arith, v.population, live-set p.refcount id 1 0 r, length-set p.refcount id 0);
        valid_ids = omega (arith, v.valid_ids, length-set p.refcount id 0);
      }

  released-Queued : Queued p js → Idle js id → Queued (released p id loc ts) js
  unfolding give_back
  released-Queued w idle = record {
    in_flight = λ i j g c.
        let f = w.in_flight i j g c in
        let other : id ≢ j.id = λ e. idle i j g c (sym e) in
        record {
          mapped = f.mapped;
          loc = f.loc;
          others = f.others;
          located = f.located;
          used = get_elem?-set_ne p.refcount id j.id 0 other ∙ f.used;
          leaves = f.leaves;
          from_tier = f.from_tier;
          from_slot = f.from_slot;
        };
    fresh = w.fresh;
    distinct = w.distinct;
  }

cancel-recount :
    (p : Pool) (id c : ℕ)
    → cancel_migration (recount p id c) id ≡ recount (cancel_migration p id) id c
unfolding cancel_migration
cancel-recount p id c = ground arith

-- A `decref` that leaves a reference only counts down.
pub decref-recount :
    {p : Pool} {js : List Job} (v : Storage p js) (id : ℕ) {c : ℕ}
    → get_elem? p.refcount id ≡ some (suc (suc c))
    → decref p id ≡ ok (false, recount p id (suc c))
unfolding decref
decref-recount {p} v id {c} r =
    let (loc, l) = used_location v id r in
    let one : suc (suc c) - 1 ≡ suc c = omega arith in
    ground (arith, r, one, get_elem?-lt p.location id l)

-- The last `decref` cancels the block's migration and gives back its id and its slot.
pub decref-released :
    {p : Pool} (v : Inv p p.jobs) (id : ℕ) (loc : Location) (ts : TierState)
    → get_elem? p.refcount id ≡ some 1
    → get_elem? p.location id ≡ some loc
    → get_elem? p.tiers loc.tier ≡ some ts
    → decref p id ≡ ok (true, released (cancel_migration p id) id loc ts)
unfolding decref
decref-released {p} v id loc ts r l h =
    let same = cancel-SameStore p id in
    ground (arith, r, same, get_elem?-lt p.location id l, cancel-recount p id 0)

-- `decref` of a block with `c + 1` references does not fail, leaves it `c` references, keeps the
-- invariant, also where a copy of the block is in flight, and answers whether the block was freed,
-- which is when `c` is 0.
pub decref-Inv :
    {p : Pool} (v : Inv p p.jobs) (id c : ℕ)
    → get_elem? p.refcount id ≡ some (suc c)
    → Returns
        (λ (freed, q). Inv q q.jobs × (freed ≡ (c == 0)) × (q.refcount ≡ set p.refcount id c))
        (decref p id)
unfolding give_back
decref-Inv {p} v id zero r =
    let (loc, l) = used_location v.storage id r in
    let (ts, h) = used_tier v.storage id 0 loc r l in
    let (w, idle) = cancel-Inv p id v in
    let same = cancel-SameStore p id in
    let r' : get_elem? (cancel_migration p id).refcount id ≡ some 1 =
      ground (arith, r, same.refcount) in
    let l' : get_elem? (cancel_migration p id).location id ≡ some loc =
      ground (arith, l, same.location) in
    let h' : get_elem? (cancel_migration p id).tiers loc.tier ≡ some ts =
      ground (arith, h, same.tiers) in
    (
      _,
      decref-released v id loc ts r l h,
      (
        record {
          storage = released-Storage w.storage id r' loc l' ts h';
          queue = released-Queued w.storage id r' loc l' ts h' w.queue idle;
        },
        refl,
        ap (λ (x : List ℕ). set x id 0) same.refcount,
      ),
    )
decref-Inv {p} v id (suc c) r = (
  _,
  decref-recount v.storage id r,
  (
    record {
      storage = recount-Storage v.storage id r c;
      queue = recount-Queued v.storage id r c v.queue;
    },
    ground arith,
    refl,
  ),
)
