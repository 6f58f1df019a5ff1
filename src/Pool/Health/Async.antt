-- ===== src/Pool/Health/Async.antt =====
-- `migrate_async` keeps a healthy pool healthy.
use kvslab.Base.{
  ℕ, suc, ◌<◌, ◌≡◌, refl, sym, ap, ◌∙◌, inl, inr, Bool, true, false, ◌&&◌, ◌||◌, Option, none, some,
  List, [], ◌∷◌, ◌++◌, arith, ltb, ◌==◌, Bool-cases, length, get_elem?, length-append, length-set,
  get_elem?-lt, get_elem?-append_one, fatal, Result, ok, at, Returns, bind-inv, at-inv, ok-inj,
  guard-inv,
}
use mathlib.Core.Path.{subst}
use kvslab.Pool.{locate, migrating?}
use kvslab.Pool.State.{Location, TierState, Job, Pool, put_free, find, is_some}
use kvslab.Pool.Inv.{Inv}
use kvslab.Pool.Queue.{migrate_async, async_located, try_enqueue, enqueue, new_job, ensure_worker}
use kvslab.Pool.Queue.Worker.{Cursor}
use kvslab.Pool.Queue.Async.{Started, migrate_async-Started}
use kvslab.Pool.Health.{Mapped, Healthy, SameTiers-set, SameTiers-length, SameTiers-Sized}

-- More jobs at the end change no entry.
Mapped-append :
    (js : List Job) (new : Job) (m : List (ℕ × ℕ)) → Mapped js m → Mapped (js ++ new ∷ []) m
Mapped-append js new [] w = tt
Mapped-append js new ((id, r) ∷ m) ((i, j, g, e, f, c), d, w) = (
  (i, j, ground (arith, get_elem?-append_one js new i, get_elem?-lt js i g, g), e, f, c),
  d,
  Mapped-append js new m w,
)

module _ {p : Pool} (h : Healthy p) (id dst : ℕ) (loc : Location) (ts : TierState) (slot : ℕ)
    (rest : List ℕ) (k : get_elem? p.tiers dst ≡ some ts) (idle : find id p.migrating ≡ none)
    (from : loc.tier < length p.tiers) where
  abbrev after : Pool
  after = ensure_worker (enqueue p id dst loc ts slot rest)

  abbrev job : Job
  job = new_job p id dst loc slot

  enqueue-Cursor : Cursor after
  unfolding enqueue ensure_worker new_job
  enqueue-Cursor = record {
    within = omega (arith, h.cursor.within, length-append p.jobs (job ∷ []));
    unclaimed = λ i j g le.
        let e = get_elem?-append_one p.jobs job i in
        elim (Bool-cases (i == length p.jobs)) [
          | inl new ↦
              let f : some job ≡ some j = sym (e ∙ rw new refl) ∙ g in
              let same : job ≡ j = cc in sym (ap (λ (x : Job). x.phase) same)
          | inr old ↦ h.cursor.unclaimed i j (sym (e ∙ rw old refl) ∙ g) le
        ];
    taken = λ i j g lt.
        let e = get_elem?-append_one p.jobs job i in
        let old : (i == length p.jobs) ≡ false = ground (arith, h.cursor.within) in
        h.cursor.taken i j (sym (e ∙ rw old refl) ∙ g) lt;
  }

  enqueue-Mapped : Mapped after.jobs after.migrating
  unfolding enqueue ensure_worker
  enqueue-Mapped = (
    (
      length p.jobs,
      job,
      ground (arith, get_elem?-append_one p.jobs job (length p.jobs)),
      refl,
      refl,
      refl,
    ),
    idle,
    Mapped-append p.jobs job p.migrating h.mapped,
  )

  enqueue-Healthy : Inv after after.jobs → Healthy after
  unfolding enqueue ensure_worker put_free new_job
  enqueue-Healthy v =
      let same = SameTiers-set p.tiers dst ts (record ts { free_slots = rest }) k refl refl in
      record {
        inv = v;
        sized = SameTiers-Sized p after refl same h.sized;
        cursor = enqueue-Cursor;
        mapped = enqueue-Mapped;
        some_tier = omega (arith, h.some_tier, SameTiers-length p.tiers after.tiers same);
        staffed = λ some_job. ground arith;
        sources = λ i j g.
            let e = get_elem?-append_one p.jobs job i in
            let len = SameTiers-length p.tiers after.tiers same in
            elim (Bool-cases (i == length p.jobs)) [
              | inl new ↦
                  let f : some job ≡ some j = sym (e ∙ rw new refl) ∙ g in
                  let same_job : job ≡ j = cc in
                  omega (arith, len, from, ap (λ (x : Job). x.src_tier) same_job)
              | inr old ↦ omega (arith, len, h.sources i j (sym (e ∙ rw old refl) ∙ g))
            ];
      }

not_moving :
    (p : Pool) (id : ℕ) (b : Bool) → (b || migrating? p id) ≡ false → find id p.migrating ≡ none
unfolding migrating? is_some
not_moving p id true h = absurd cc
not_moving p id false h = none_of (find id p.migrating) h
  where
    none_of : (o : Option ℕ) → is_some o ≡ false → o ≡ none
    none_of none f = refl
    none_of (some r) f = absurd cc

-- `migrate_async` leaves the pool, or starts a copy.
async-cases :
    {p : Pool} (h : Healthy p) (id dst : ℕ) {started : Bool} {q : Pool}
    → migrate_async p id dst ≡ ok (started, q)
    → Inv q q.jobs
    → Healthy q × (length q.tiers ≡ length p.tiers)
unfolding migrate_async async_located try_enqueue enqueue ensure_worker put_free
async-cases {p} h id dst e v =
    let (loc, f, r1) = bind-inv (locate p id) _ e in
    let r2 = guard-inv (ltb dst (length p.tiers)) fatal _ r1 in
    elim (Bool-cases (loc.tier == dst || migrating? p id)) [
      | inl stays ↦ same (rw (stays, async_located) at r2) v
      | inr goes ↦
          let (ts, g, r3) = bind-inv (at p.tiers dst) _ (rw (goes, async_located) at r2) in
          by_slot loc ts (at-inv p.tiers dst g) (not_moving p id (loc.tier == dst) goes)
            ts.free_slots r3 v
    ]
  where
    same :
        {started other : Bool} {q : Pool}
        → ◌≡◌ {A = Result (Bool × Pool)} (ok (other, p)) (ok (started, q))
        → Inv q q.jobs
        → Healthy q × (length q.tiers ≡ length p.tiers)
    same f v =
        subst (λ (x : Pool). Healthy x × (length x.tiers ≡ length p.tiers))
          (ap (λ (x : Bool × Pool). x.1) (ok-inj f)) (h, refl)

    by_slot :
        (loc : Location) (ts : TierState)
        → get_elem? p.tiers dst ≡ some ts
        → find id p.migrating ≡ none
        → (free : List ℕ) {started : Bool} {q : Pool}
        → ◌≡◌ {A = Result (Bool × Pool)}
            (elim free [ [] ↦ ok (false, p) | slot ∷ rest ↦ try_enqueue p id dst loc ts slot rest ])
            (ok (started, q))
        → Inv q q.jobs
        → Healthy q × (length q.tiers ≡ length p.tiers)
    by_slot loc ts k idle [] f v = same f v
    by_slot loc ts k idle (slot ∷ rest) f v =
        let (src, e, g) = bind-inv (at p.tiers loc.tier) _ f in
        elim (Bool-cases (src.tier.addressable && ts.tier.addressable)) [
          | inr shut ↦ same (rw shut at g) v
          | inl open_tiers ↦
              let there = ap (λ (x : Bool × Pool). x.1) (ok-inj (rw open_tiers at g)) in
              subst (λ (x : Pool). Healthy x × (length x.tiers ≡ length p.tiers)) there
                (
                  enqueue-Healthy h id dst loc ts slot rest k idle
                      (get_elem?-lt p.tiers loc.tier (at-inv p.tiers loc.tier e))
                      (subst (λ (x : Pool). Inv x x.jobs) (sym there) v),
                  length-set p.tiers dst (record ts { free_slots = rest }),
                )
        ]

-- `migrate_async` of a block in use, to a tier of the pool, keeps the pool healthy.
pub migrate_async-Healthy :
    {p : Pool} (h : Healthy p) (id c : ℕ) (loc : Location) (dst : ℕ) (ts src : TierState)
    → get_elem? p.refcount id ≡ some (suc c)
    → get_elem? p.location id ≡ some loc
    → get_elem? p.tiers dst ≡ some ts
    → get_elem? p.tiers loc.tier ≡ some src
    → Returns
        (λ (started, q).
          Healthy q × (length q.tiers ≡ length p.tiers) × Started p id loc dst ts src started q)
        (migrate_async p id dst)
migrate_async-Healthy {p} h id c loc dst ts src r l k g =
    let ((started, q), e, m) = migrate_async-Started h.inv id c loc dst ts src r l k g in
    let (w, len) = async-cases h id dst e m.inv in ((started, q), e, (w, len, m))
