-- ===== src/Pool/Cancel.antt =====
-- `cancel_migration` keeps the invariant of BlockPool, and leaves no live job for the block.
use kvslab.Base.{
  ℕ, zero, suc, ◌≡◌, refl, sym, ap, ◌∙◌, ◌≢◌, inl, inr, true, false, none, some, List, [], ◌∷◌,
  arith, ◌==◌, if◌then◌else◌, Option-cases, length, get_elem?,
}
use kvslab.Pool.{cancel_migration}
use kvslab.Pool.State.{Job, Pool, find, erase, set_cancelled}
use kvslab.Pool.Slots.{reserved-set_cancelled}
use kvslab.Pool.Inv.{InFlight, Queued, Inv}

-- A job after `set_cancelled r`.
abbrev pub mark : ℕ → Job → Job
mark r j = if j.ref == r then record j { cancelled = true } else j

pub get_elem?-set_cancelled :
    (r : ℕ) (js : List Job) (i : ℕ) {k : Job}
    → get_elem? (set_cancelled r js) i ≡ some k
    → (j : Job) × (get_elem? js i ≡ some j) × (k ≡ mark r j)
unfolding set_cancelled
get_elem?-set_cancelled r [] i h = cc
get_elem?-set_cancelled r (j ∷ js) zero h = (j, refl, ground arith)
get_elem?-set_cancelled r (j ∷ js) (suc i) h = get_elem?-set_cancelled r js i h

pub length-set_cancelled : (r : ℕ) (js : List Job) → length (set_cancelled r js) ≡ length js
unfolding set_cancelled
length-set_cancelled r [] = refl
length-set_cancelled r (j ∷ js) = ap suc (length-set_cancelled r js)

pub find-erase_ne : (id k : ℕ) (m : List (ℕ × ℕ)) → id ≢ k → find k (erase id m) ≡ find k m
unfolding find erase
find-erase_ne id k [] d = refl
find-erase_ne id k ((a, r) ∷ m) d = ground (arith, find-erase_ne id k m d)

-- No job of the queue will move the block.
abbrev pub Idle : List Job → ℕ → Type 0
Idle js id = (i : ℕ) (j : Job) → get_elem? js i ≡ some j → j.cancelled ≡ false → j.id ≢ id

-- `cancel_migration` when the block is mapped to job `r`.
abbrev cancelled_at : Pool → ℕ → ℕ → Pool
cancelled_at p id r = record p { jobs = set_cancelled r p.jobs; migrating = erase id p.migrating }

cancel-some :
    (p : Pool) (id r : ℕ)
    → find id p.migrating ≡ some r
    → cancel_migration p id ≡ cancelled_at p id r
unfolding cancel_migration
cancel-some p id r e = ground arith

cancel-none : (p : Pool) (id : ℕ) → find id p.migrating ≡ none → cancel_migration p id ≡ p
unfolding cancel_migration
cancel-none p id e = ground arith

-- `cancel_migration` touches the queue and the map, and nothing else.
pub cancel_cases {ℓ} :
    (P : Pool → Type ℓ) (p : Pool) (id : ℕ)
    → (find id p.migrating ≡ none → P p)
    → ((r : ℕ) → find id p.migrating ≡ some r → P (cancelled_at p id r))
    → P (cancel_migration p id)
cancel_cases P p id missing found = elim (Option-cases (find id p.migrating)) [
  | inl e ↦ rw (cancel-none p id e) (missing e)
  | inr (r, e) ↦ rw (cancel-some p id r e) (found r e)
]

module _ {p : Pool} (v : Queued p p.jobs) (id r : ℕ) (e : find id p.migrating ≡ some r) where
  -- A job that is still live after the mark was so before, and is another block's.
  live-cancelled :
      (i : ℕ) (k : Job)
      → get_elem? (set_cancelled r p.jobs) i ≡ some k
      → k.cancelled ≡ false
      → InFlight p k × (k.id ≢ id)
  live-cancelled i k h c =
      let (j, g, m) = get_elem?-set_cancelled r p.jobs i h in
      let same : k ≡ j = ground arith in
      let other : k.ref ≢ r = ground arith in
      let f : InFlight p k = v.in_flight i k (g ∙ ap some (sym same)) c in
      (f, ground (arith, f.mapped))

  cancelled_at-Queued : Queued (cancelled_at p id r) (set_cancelled r p.jobs)
  cancelled_at-Queued = record {
    in_flight = λ i k h c.
        let (f, d) = live-cancelled i k h c in
        record {
          mapped = find-erase_ne id k.id p.migrating (λ q. d (sym q)) ∙ f.mapped;
          loc = f.loc;
          others = f.others;
          located = f.located;
          used = f.used;
          leaves = f.leaves;
          from_tier = f.from_tier;
          from_slot = f.from_slot;
        };
    fresh = λ i k h.
        let (j, g, m) = get_elem?-set_cancelled r p.jobs i h in ground (arith, v.fresh i j g);
    distinct = λ i k a b h g q.
        let (a', h', ma) = get_elem?-set_cancelled r p.jobs i h in
        let (b', g', mb) = get_elem?-set_cancelled r p.jobs k g in
        v.distinct i k a' b' h' g' (ground arith);
  }

abbrev pub AfterCancel : ℕ → Pool → Type 0
AfterCancel id q = Inv q q.jobs × Idle q.jobs id

pub cancel-Inv : (p : Pool) (id : ℕ) → Inv p p.jobs → AfterCancel id (cancel_migration p id)
cancel-Inv p id v =
    cancel_cases (AfterCancel id) p id
      (λ e. (v, λ i j h c q. ground (arith, (v.queue.in_flight i j h c).mapped)))
      (λ r e. (
        record {
          storage = record {
            sizes = v.storage.sizes;
            slots = λ t s. omega (arith, v.storage.slots t s, reserved-set_cancelled t s r p.jobs);
            ids = v.storage.ids;
            balance = omega (arith, v.storage.balance, length-set_cancelled r p.jobs);
            population = v.storage.population;
            valid_ids = v.storage.valid_ids;
          };
          queue = cancelled_at-Queued v.queue id r e;
        },
        λ i j h c. (live-cancelled v.queue id r e i j h c).1,
      ))

-- What `cancel_migration` leaves alone.
pub record SameStore (p q : Pool) : Type 0 where
  pub cfg : q.cfg ≡ p.cfg
  pub tiers : q.tiers ≡ p.tiers
  pub location : q.location ≡ p.location
  pub refcount : q.refcount ≡ p.refcount
  pub free_ids : q.free_ids ≡ p.free_ids

pub cancel-SameStore : (p : Pool) (id : ℕ) → SameStore p (cancel_migration p id)
cancel-SameStore p id =
    cancel_cases (SameStore p) p id
      (λ e. record { cfg = refl; tiers = refl; location = refl; refcount = refl; free_ids = refl })
      (λ r e. record {
        cfg = refl;
        tiers = refl;
        location = refl;
        refcount = refl;
        free_ids = refl;
      })
