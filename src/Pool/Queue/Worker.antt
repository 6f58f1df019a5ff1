-- ===== src/Pool/Queue/Worker.antt =====
-- The workers keep the invariant of BlockPool: a step of theirs changes the phase of one job, the
-- claim cursor, and bytes of a slot that the job has reserved.
use kvslab.Base.{
  ℕ, zero, suc, ◌+◌, ◌^◌, ◌≤◌, ◌<◌, ◌≡◌, refl, sym, ap, ◌∙◌, ◌≢◌, ◌⊎◌, inl, inr, ◌&&◌, not, some,
  List, [], ◌∷◌, arith, ltb, ◌==◌, u64, Bool-cases, length, get_elem?, set, length-set,
  get_elem?-lt, get_elem?_of_lt, get_elem?-set_ne, get_elem?-set, Returns,
}
use kvslab.Pool.State.{TierState, Job, Phase, queued, claimed, Pool}
use kvslab.Pool.Slots.{reserved-set, reserved-le}
use kvslab.Pool.Free.{size_of-pos, free_of-some, free_of-set, size_of-set, sum_free-set}
use kvslab.Pool.Inv.{Storage, InFlight, Queued, Inv}
use kvslab.Tier.{memcpy}
use kvslab.Pool.Queue.Drain.{with_queue}
use kvslab.Pool.Queue.{claim, set_phase, put_copy, finished}

-- How far the claims have come: the jobs before the cursor have been claimed, and no other has.
pub record Cursor (p : Pool) : Type 0 where
  pub within : p.next_unclaimed ≤ length p.jobs
  pub unclaimed :
      (i : ℕ) (j : Job) → get_elem? p.jobs i ≡ some j → p.next_unclaimed ≤ i → j.phase ≡ queued
  pub taken :
      (i : ℕ) (j : Job) → get_elem? p.jobs i ≡ some j → i < p.next_unclaimed → j.phase ≢ queued

abbrev phased : Job → Phase → Job
phased j phase = record j { phase = phase }

-- A job of the queue after `set` is the new one or an old one.
pub set_cases :
    (js : List Job) (i k : ℕ) (j new a : Job)
    → get_elem? js i ≡ some j
    → get_elem? (set js i new) k ≡ some a
    → ((i ≡ k) × (a ≡ new)) ⊎ ((i ≢ k) × (get_elem? js k ≡ some a))
set_cases js i k j new a h g = ground (arith, get_elem?-set js i k new, get_elem?-lt js i h)

module _ {p : Pool} (v : Inv p p.jobs) (i : ℕ) (j : Job) (h : get_elem? p.jobs i ≡ some j)
    (phase : Phase) where
  abbrev marked : List Job
  marked = set p.jobs i (phased j phase)

  -- Each job of the new queue has an old one with all but its phase.
  was :
      (k : ℕ) (a : Job)
      → get_elem? marked k ≡ some a
      → (b : Job) × (get_elem? p.jobs k ≡ some b) × (a ≡ phased b a.phase)
  was k a g = elim (set_cases p.jobs i k j (phased j phase) a h g) [
    | inl (q, e) ↦ (j, ap (get_elem? p.jobs) (sym q) ∙ h, ground arith)
    | inr (d, o) ↦ (a, o, refl)
  ]

  set_phase-Queued : Queued (set_phase p i j phase) marked
  unfolding set_phase
  set_phase-Queued = record {
    in_flight = λ k a g c.
        let (b, o, e) = was k a g in
        let f : InFlight p b = v.queue.in_flight k b o (ground arith) in
        record {
          mapped = ground (arith, f.mapped);
          loc = f.loc;
          others = f.others;
          located = ground (arith, f.located);
          used = ground (arith, f.used);
          leaves = ground (arith, f.leaves);
          from_tier = ground (arith, f.from_tier);
          from_slot = ground (arith, f.from_slot);
        };
    fresh = λ k a g. let (b, o, e) = was k a g in ground (arith, v.queue.fresh k b o);
    distinct = λ k n x y g g' q.
        let (b, o, e) = was k x g in
        let (b', o', e') = was n y g' in v.queue.distinct k n b b' o o' (ground arith);
  }

  pub set_phase-Inv : Inv (set_phase p i j phase) marked
  unfolding set_phase
  set_phase-Inv =
      let w = v.storage in
      record {
        storage = record {
          sizes = w.sizes;
          slots = λ t s.
              ground (arith, w.slots t s, reserved-set t s p.jobs i j (phased j phase) h refl);
          ids = w.ids;
          balance = omega (arith, w.balance, length-set p.jobs i (phased j phase));
          population = w.population;
          valid_ids = w.valid_ids;
        };
        queue = set_phase-Queued;
      }

-- The copy changes bytes of a tier only.
pub put_copy-Inv :
    {p : Pool} (js : List Job) (j : Job) (src dst : TierState)
    → get_elem? p.tiers j.dst_tier ≡ some dst
    → Inv p js
    → Inv (put_copy p j src dst) js
unfolding put_copy
put_copy-Inv {p} js j src dst h v =
    let w = v.storage in
    let new : TierState = record dst {
      tier = record dst.tier {
        arena = memcpy j.bytes dst.tier.arena j.dst_off src.tier.arena j.src_off;
      };
    } in
    record {
      storage = record {
        sizes = w.sizes;
        slots = λ t s. ground (
          arith,
          w.slots t s,
          free_of-some p.tiers j.dst_tier dst h s,
          free_of-set p.tiers j.dst_tier dst h new t s,
          size_of-set p.tiers j.dst_tier dst h new t refl,
        );
        ids = w.ids;
        balance = omega (arith, w.balance, sum_free-set p.tiers j.dst_tier dst new h);
        population = w.population;
        valid_ids = w.valid_ids;
      };
      queue = record {
        in_flight = λ i k g c.
            let f = v.queue.in_flight i k g c in
            record {
              mapped = f.mapped;
              loc = f.loc;
              others = f.others;
              located = f.located;
              used = f.used;
              leaves = f.leaves;
              from_tier = f.from_tier;
              from_slot = f.from_slot;
            };
        fresh = v.queue.fresh;
        distinct = v.queue.distinct;
      };
    }

-- The tier of a reserved slot is one of the pool's.
pub reserved_tier :
    {p : Pool} {js : List Job} (v : Storage p js) (i : ℕ) (j : Job)
    → get_elem? js i ≡ some j
    → (ts : TierState) × (get_elem? p.tiers j.dst_tier ≡ some ts)
reserved_tier {p} {js} v i j h =
    size_of-pos p.tiers j.dst_tier
      (ground (arith, v.slots j.dst_tier j.dst_slot, reserved-le j.dst_tier j.dst_slot js i j h))

-- No more jobs are finished at the front than have been claimed.
finished-le :
    (js : List Job) (n : ℕ)
    → ((i : ℕ) (j : Job) → get_elem? js i ≡ some j → n ≤ i → j.phase ≡ queued)
    → length (finished js) ≤ n
unfolding finished
finished-le [] n q = omega arith
finished-le (j ∷ js) zero q = ground (arith, q 0 j refl)
finished-le (j ∷ js) (suc n) q =
    ground (arith, finished-le js n (λ i k h le. q (suc i) k h (omega arith)))

pub Cursor-finished : {p : Pool} → Cursor p → length (finished p.jobs) ≤ p.next_unclaimed
Cursor-finished {p} c = finished-le p.jobs p.next_unclaimed c.unclaimed

module _ {p : Pool} (v : Inv p p.jobs) (c : Cursor p) where
  -- Each queued job holds a block id that is not free, so the queue is short.
  pub length-jobs-lt : length p.jobs < 2 ^ 32
  length-jobs-lt = omega (arith, v.storage.balance, v.storage.population, v.storage.valid_ids)

  no_queue : claimed ≡ queued → ⊥
  no_queue e = cc

  claimed_one :
      (j : Job)
      → get_elem? p.jobs p.next_unclaimed ≡ some j
      → let q = record (set_phase p p.next_unclaimed j claimed) {
        next_unclaimed = p.next_unclaimed + 1;
      } in
        Inv q q.jobs × Cursor q
  unfolding set_phase
  claimed_one j h =
      let w = set_phase-Inv v p.next_unclaimed j h claimed in
      (
        with_queue (set p.jobs p.next_unclaimed (phased j claimed)) (p.next_unclaimed + 1) w,
        record {
          within = omega (
            arith,
            length-set p.jobs p.next_unclaimed (phased j claimed),
            get_elem?-lt p.jobs p.next_unclaimed h,
          );
          unclaimed = λ i k g le.
              c.unclaimed i k
                (sym (get_elem?-set_ne p.jobs p.next_unclaimed i (phased j claimed) (omega arith))
                  ∙ g)
                (omega arith);
          taken = λ i k g lt e.
              elim (set_cases p.jobs p.next_unclaimed i j (phased j claimed) k h g) [
                | inl (q, same) ↦ absurd (no_queue (sym (ap (λ (x : Job). x.phase) same) ∙ e))
                | inr (d, o) ↦ c.taken i k o (omega (arith, d)) e
              ];
        },
      )

  -- A worker's claim does not fail, keeps the invariant, and keeps the cursor within the queue and
  -- behind every job that is not claimed.
  pub claim-Inv : Returns (λ q. Inv q q.jobs × Cursor q) (claim p)
  unfolding claim set_phase
  claim-Inv = elim (Bool-cases (ltb p.next_unclaimed (length p.jobs) && not (p.workers == 0))) [
    | inl y ↦
        let (j, h) = get_elem?_of_lt p.jobs p.next_unclaimed (ground arith) in
        let n : u64 (p.next_unclaimed + 1) ≡ p.next_unclaimed + 1 =
          omega (arith, length-jobs-lt, get_elem?-lt p.jobs p.next_unclaimed h) in
        (
          record (set_phase p p.next_unclaimed j claimed) { next_unclaimed = p.next_unclaimed + 1 },
          ground (arith, h, n),
          claimed_one j h,
        )
    | inr n ↦ (p, rw (n, claim) refl, (v, c))
  ]
