-- ===== src/Pool/Health/Queries.antt =====
-- The queries of a healthy pool do not fail.
use kvslab.Base.{
  ℕ, zero, suc, ◌+◌, ◌≡◌, refl, sym, ap, ◌∙◌, inl, inr, true, ◌&&◌, not, Option, none, some, List,
  [], ◌∷◌, arith, ◌==◌, if◌then◌else◌, Bool-cases, length, get_elem?, get_elem?_of_lt, ok, at-some,
}
use kvslab.Pool.{num_free, migrating?}
use kvslab.Pool.State.{TierState, Job, Pool, find, is_some}
use kvslab.Pool.Queue.{job_at, departures, pending_departures, migration_target}
use kvslab.Pool.Health.{Mapped, Healthy}
use kvslab.Pool.Health.Steps.{find-Entry}

pub num_free-Healthy :
    {p : Pool} (h : Healthy p)
    → (ts : TierState) × (get_elem? p.tiers 0 ≡ some ts) × (num_free p ≡ ok (length ts.free_slots))
unfolding num_free
num_free-Healthy {p} h =
    let (ts, g) = get_elem?_of_lt p.tiers 0 h.some_tier in (ts, g, ground (arith, g))

job_at-found :
    (r : ℕ) (js : List Job) (i : ℕ) (j : Job)
    → get_elem? js i ≡ some j
    → j.ref ≡ r
    → (k : Job) × (job_at r js ≡ ok k)
unfolding job_at
job_at-found r [] i j g e = cc
job_at-found r (x ∷ js) zero j g e =
    let same : x ≡ j = cc in
    let mine : (x.ref == r) ≡ true = ground (arith, ap (λ (k : Job). k.ref) same) in
    (x, rw mine refl)
job_at-found r (x ∷ js) (suc i) j g e = elim (Bool-cases (x.ref == r)) [
  | inl mine ↦ (x, rw mine refl)
  | inr other ↦ let (k, f) = job_at-found r js i j g e in (k, rw other f)
]

departures-returns :
    {p : Pool} (h : Healthy p) (t : ℕ) (m : List (ℕ × ℕ))
    → Mapped p.jobs m
    → (n : ℕ) × (departures p t m ≡ ok n)
unfolding departures
departures-returns h t [] w = (0, refl)
departures-returns {p} h t ((id, r) ∷ m) ((i, j, g, e, f, c), d, w) =
    let flight = h.inv.queue.in_flight i j g c in
    let here : get_elem? p.location id ≡ some flight.loc =
      ap (get_elem? p.location) (sym f) ∙ flight.located in
    let (k, found) = job_at-found r p.jobs i j g e in
    let (n, rest) = departures-returns h t m w in
    (
      (if flight.loc.tier == t && not (k.dst_tier == t) then 1 else 0) + n,
      rw (at-some p.location id here, found, rest) refl,
    )

-- `pending_departures` of a healthy pool does not fail.
pub pending_departures-Healthy :
    {p : Pool} (h : Healthy p) (t : ℕ) → (n : ℕ) × (pending_departures p t ≡ ok n)
unfolding pending_departures
pending_departures-Healthy {p} h t = departures-returns h t p.migrating h.mapped

-- `migration_target` of a block that is on its way does not fail.
pub migration_target-Healthy :
    {p : Pool} (h : Healthy p) (id : ℕ)
    → migrating? p id ≡ true
    → (t : ℕ) × (migration_target p id ≡ ok t)
unfolding migration_target migrating? is_some
migration_target-Healthy {p} h id moving = by_entry (find id p.migrating) refl moving
  where
    by_entry :
        (o : Option ℕ)
        → find id p.migrating ≡ o
        → is_some o ≡ true
        → (t : ℕ) × (migration_target p id ≡ ok t)
    by_entry none e y = absurd cc
    by_entry (some r) e y =
        let (i, j, g, f, same, c) = find-Entry p.jobs id r p.migrating h.mapped e in
        let (k, found) = job_at-found r p.jobs i j g f in
        (k.dst_tier, rw (e, migration_target) (rw found refl))
