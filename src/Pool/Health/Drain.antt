-- ===== src/Pool/Health/Drain.antt =====
-- `drain_migrations` keeps a healthy pool healthy.
use kvslab.Base.{
  ℕ, zero, suc, ◌+◌, ◌^◌, ◌<◌, ◌≡◌, refl, sym, ap, ◌∙◌, ◌≢◌, ◌⊎◌, inl, inr, true, false, none, List,
  [], ◌∷◌, ◌++◌, arith, ◌==◌, if◌then◌else◌, sub64, Bool-cases, length, get_elem?, ok, at, for_each,
  Returns, bind-inv, at-inv, ok-inj,
}
use mathlib.Core.Path.{subst}
use kvslab.Pool.State.{Job, Pool, put_free, find, erase}
use kvslab.Pool.Queue.{settle, drop_slot, land, finished, unfinished, drain_migrations}
use kvslab.Pool.Queue.Worker.{Cursor-finished, length-jobs-lt}
use kvslab.Pool.Queue.Drain.{Drained, drain-Drained, finished-append-unfinished}
use kvslab.Pool.Health.{
  Entry, Mapped, Healthy, SameTiers, SameTiers-refl, SameTiers-set, SameTiers-trans,
  SameTiers-length, SameTiers-Sized,
}
use kvslab.Pool.Health.Steps.{find-erased}

-- The map after these jobs have been settled.
abbrev settled_map : List Job → List (ℕ × ℕ) → List (ℕ × ℕ)
settled_map [] m = m
settled_map (j ∷ fs) m = settled_map fs (if j.cancelled then m else erase j.id m)

record Frame (p q : Pool) (m : List (ℕ × ℕ)) : Type 0 where
  cfg : q.cfg ≡ p.cfg
  tiers : SameTiers p.tiers q.tiers
  migrating : q.migrating ≡ m
  workers : q.workers ≡ p.workers

settle-Frame :
    (p : Pool) (j : Job) {q : Pool}
    → settle p j ≡ ok q
    → Frame p q (if j.cancelled then p.migrating else erase j.id p.migrating)
unfolding settle drop_slot land put_free
settle-Frame p j h = elim (Bool-cases j.cancelled) [
  | inl c ↦
      let (dst, e, r) = bind-inv (at p.tiers j.dst_tier) _ (rw c at h) in
      let same =
        SameTiers-set p.tiers j.dst_tier dst
          (record dst { free_slots = j.dst_slot ∷ dst.free_slots }) (at-inv p.tiers j.dst_tier e)
          refl refl in
      rw c (
        subst (λ (q : Pool). Frame p q p.migrating) (ok-inj r)
          (record { cfg = refl; tiers = same; migrating = refl; workers = refl }))
  | inr c ↦
      let (loc, e, r) = bind-inv (at p.location j.id) _ (rw c at h) in
      let (src, f, s) = bind-inv (at p.tiers loc.tier) _ r in
      let same =
        SameTiers-set p.tiers loc.tier src (record src { free_slots = loc.slot ∷ src.free_slots })
          (at-inv p.tiers loc.tier f) refl refl in
      rw c (
        subst (λ (q : Pool). Frame p q (erase j.id p.migrating)) (ok-inj s)
          (record { cfg = refl; tiers = same; migrating = refl; workers = refl }))
]

settle_all-Frame :
    (fs : List Job) (p : Pool) {q : Pool}
    → for_each settle fs p ≡ ok q
    → Frame p q (settled_map fs p.migrating)
settle_all-Frame [] p h =
    subst (λ (q : Pool). Frame p q p.migrating) (ok-inj h)
      (record { cfg = refl; tiers = SameTiers-refl p.tiers; migrating = refl; workers = refl })
settle_all-Frame (j ∷ fs) p {q} h =
    let (r, e, rest) = bind-inv (settle p j) _ h in
    let a = settle-Frame p j e in
    let b = settle_all-Frame fs r rest in
    record {
      cfg = b.cfg ∙ a.cfg;
      tiers = SameTiers-trans p.tiers r.tiers q.tiers a.tiers b.tiers;
      workers = b.workers ∙ a.workers;
      migrating = b.migrating ∙ ap (settled_map fs) a.migrating;
    }

-- An entry of another job than the first is one of the rest.
Entry-tail :
    (j : Job) (js : List Job) (k r : ℕ)
    → (j.cancelled ≡ true) ⊎ (k ≢ j.id)
    → Entry (j ∷ js) k r
    → Entry js k r
Entry-tail j js k r no_first (zero, x, g, e, f, c) =
    let same : j ≡ x = cc in
    elim no_first [
      | inl y ↦ absurd (clash (sym y ∙ ap (λ (a : Job). a.cancelled) same ∙ c))
      | inr ne ↦ absurd (ne (sym f ∙ ap (λ (a : Job). a.id) (sym same)))
    ]
  where
    clash : true ≡ false → ⊥
    clash y = cc
Entry-tail j js k r no_first (suc i, x, g, e, f, c) = (i, x, g, e, f, c)

pub all-tail :
    (j : Job) (js : List Job) (m : List (ℕ × ℕ))
    → (j.cancelled ≡ true) ⊎ (find j.id m ≡ none)
    → Mapped (j ∷ js) m
    → Mapped js m
unfolding find
all-tail j js [] no_first w = tt
all-tail j js ((k, r) ∷ m) no_first (e, d, w) = elim no_first [
  | inl y ↦ (Entry-tail j js k r (inl y) e, d, all-tail j js m (inl y) w)
  | inr absent ↦
      (Entry-tail j js k r (inr (λ q. ground arith)) e, d, all-tail j js m (inr (ground arith)) w)
]

pub erase-tail :
    (j : Job) (js : List Job) (m : List (ℕ × ℕ)) → Mapped (j ∷ js) m → Mapped js (erase j.id m)
unfolding find erase
erase-tail j js [] w = tt
erase-tail j js ((k, r) ∷ m) (e, d, w) = elim (Bool-cases (k == j.id)) [
  | inl same ↦
      let f : k ≡ j.id = ground arith in
      rw (same, erase) (all-tail j js m (inr (ap (λ (x : ℕ). find x m) (sym f) ∙ d)) w)
  | inr other ↦
      rw (other, erase)
        (
          Entry-tail j js k r (inr (λ q. ground arith)) e,
          find-erased k j.id m d,
          erase-tail j js m w,
        )
]

Mapped-settled :
    (fs js : List Job) (m : List (ℕ × ℕ)) → Mapped (fs ++ js) m → Mapped js (settled_map fs m)
Mapped-settled [] js m w = w
Mapped-settled (j ∷ fs) js m w = elim (Bool-cases j.cancelled) [
  | inl c ↦ rw c (Mapped-settled fs js m (all-tail j (fs ++ js) m (inl c) w))
  | inr c ↦ rw c (Mapped-settled fs js (erase j.id m) (erase-tail j (fs ++ js) m w))
]

unfinished-get :
    (js : List Job) (i : ℕ) → get_elem? (unfinished js) i ≡ get_elem? js (length (finished js) + i)
unfolding finished unfinished
unfinished-get [] i = refl
unfinished-get (j ∷ js) i =
    let e : suc (length (finished js)) + i ≡ suc (length (finished js) + i) = omega arith in
    let next : get_elem? (j ∷ js) (suc (length (finished js)) + i)
        ≡ get_elem? js (length (finished js) + i) =
      ap (get_elem? (j ∷ js)) e in
    ground (arith, unfinished-get js i, next)

finished-length : (js : List Job) → length (finished js) + length (unfinished js) ≡ length js
unfolding finished unfinished
finished-length [] = refl
finished-length (j ∷ js) = ground (arith, finished-length js)

-- `drain_migrations` of a healthy pool does not fail and leaves it healthy.
pub drain-Healthy :
    {p : Pool} (h : Healthy p)
    → Returns
        (λ q. Healthy q × (length q.tiers ≡ length p.tiers) × Drained p q)
        (drain_migrations p)
unfolding drain_migrations
drain-Healthy {p} h =
    let fs = finished p.jobs in
    let js = unfinished p.jobs in
    let short : p.next_unclaimed < 2 ^ 64 =
      omega (arith, h.cursor.within, length-jobs-lt h.inv h.cursor) in
    let (q, e, d) = drain-Drained p h.inv (Cursor-finished h.cursor) short in
    let f =
      settle_all-Frame fs
        (record p { jobs = js; next_unclaimed = sub64 p.next_unclaimed (length fs) }) e in
    let whole =
      subst (λ (xs : List Job). Mapped xs p.migrating) (sym (finished-append-unfinished p.jobs))
        h.mapped in
    (
      q,
      e,
      (
        record {
          inv = d.inv;
          sized = SameTiers-Sized p q f.cfg f.tiers h.sized;
          cursor = record {
            within = omega (
              arith,
              h.cursor.within,
              d.cursor,
              finished-length p.jobs,
              ap (length {A = Job}) d.jobs,
            );
            unclaimed = λ i j g le.
                h.cursor.unclaimed (length fs + i) j
                  (sym (unfinished-get p.jobs i)
                    ∙ ap (λ (xs : List Job). get_elem? xs i) (sym d.jobs)
                    ∙ g)
                  (omega (arith, d.cursor));
            taken = λ i j g lt.
                h.cursor.taken (length fs + i) j
                  (sym (unfinished-get p.jobs i)
                    ∙ ap (λ (xs : List Job). get_elem? xs i) (sym d.jobs)
                    ∙ g)
                  (omega (arith, d.cursor));
          };
          mapped =
              subst (λ (xs : List Job). Mapped xs q.migrating) (sym d.jobs)
                (subst (Mapped js) (sym f.migrating) (Mapped-settled fs js p.migrating whole));
          some_tier = omega (arith, h.some_tier, SameTiers-length p.tiers q.tiers f.tiers);
          staffed = λ some_job. omega (
            arith,
            f.workers,
            h.staffed
                (omega (arith, some_job, finished-length p.jobs, ap (length {A = Job}) d.jobs)),
          );
          sources = λ i j g. omega (
            arith,
            h.sources (length fs + i) j (
                sym (unfinished-get p.jobs i)
                ∙ ap (λ (xs : List Job). get_elem? xs i) (sym d.jobs)
                ∙ g),
            SameTiers-length p.tiers q.tiers f.tiers,
          );
        },
        SameTiers-length p.tiers q.tiers f.tiers,
        d,
      ),
    )
