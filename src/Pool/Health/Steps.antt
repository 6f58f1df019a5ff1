-- ===== src/Pool/Health/Steps.antt =====
-- `cancel_migration`, `decref`, `incref` and `allocate` keep a healthy pool healthy.
use kvslab.Base.{
  ℕ, zero, suc, ◌-◌, ◌<◌, ◌≡◌, refl, sym, ap, ◌∙◌, ◌≢◌, inl, inr, false, Option, none, some, List,
  [], ◌∷◌, arith, ◌==◌, Bool-cases, length, get_elem?, Returns, Returns-at,
}
use mathlib.Core.Path.{subst}
use kvslab.Pool.{decref, cancel_migration, give_back}
use kvslab.Pool.State.{TierState, Job, Pool, find, erase, set_cancelled, put_free}
use kvslab.Pool.Inv.{Inv}
use kvslab.Pool.Basic.{used_location}
use kvslab.Pool.Cancel.{
  cancel_cases, cancel-Inv, cancel-SameStore, length-set_cancelled, get_elem?-set_cancelled,
}
use kvslab.Pool.Release.{used_tier, decref-recount, decref-released}
use kvslab.Pool.Refs.{refs, refs-some, OneLess, decref-OneLess}
use kvslab.Pool.Queue.Worker.{Cursor}
use kvslab.Pool.Health.{
  Entry, Mapped, Sources, Healthy, SameTiers, SameTiers-refl, SameTiers-set, SameTiers-length,
  SameTiers-Sized,
}

pub find-erased : (k id : ℕ) (m : List (ℕ × ℕ)) → find k m ≡ none → find k (erase id m) ≡ none
unfolding find erase
find-erased k id [] h = refl
find-erased k id ((a, r) ∷ m) h = ground (arith, find-erased k id m)

-- A job that is marked is the one with this number; the others stay.
set_cancelled-other :
    (r : ℕ) (js : List Job) (i : ℕ) (j : Job)
    → get_elem? js i ≡ some j
    → j.ref ≢ r
    → get_elem? (set_cancelled r js) i ≡ some j
unfolding set_cancelled
set_cancelled-other r [] i j h ne = cc
set_cancelled-other r (x ∷ js) zero j h ne =
    let same : x ≡ j = cc in
    let other : (x.ref == r) ≡ false = ground (arith, ap (λ (k : Job). k.ref) same) in rw other h
set_cancelled-other r (x ∷ js) (suc i) j h ne = set_cancelled-other r js i j h ne

module _ (js : List Job) (id r : ℕ)
    (distinct : (i k : ℕ) (a b : Job)
      → get_elem? js i ≡ some a
      → get_elem? js k ≡ some b
      → a.ref ≡ b.ref
      → i ≡ k)
    (mine : Entry js id r) where
  -- The entries of other blocks are other jobs'.
  entry-cancelled : (k s : ℕ) → k ≢ id → Entry js k s → Entry (set_cancelled r js) k s
  entry-cancelled k s ne (i, j, g, e, f, c) =
      let (i0, j0, g0, e0, f0, c0) = mine in
      let other : j.ref ≢ r = λ q.
        let at_same : i0 ≡ i = distinct i0 i j0 j g0 g (e0 ∙ sym q) in
        let same_job : some j0 ≡ some j = sym g0 ∙ ap (get_elem? js) at_same ∙ g in
        let same_id : j0.id ≡ j.id = ap id_of same_job in ne (sym f ∙ sym same_id ∙ f0) in
      (i, j, set_cancelled-other r js i j g other, e, f, c)
    where
      id_of : Option Job → ℕ
      id_of none = 0
      id_of (some j) = j.id

  others-cancelled :
      (m : List (ℕ × ℕ)) → find id m ≡ none → Mapped js m → Mapped (set_cancelled r js) m
  unfolding find
  others-cancelled [] h w = tt
  others-cancelled ((k, s) ∷ m) h (e, d, w) =
      (entry-cancelled k s (λ q. ground arith) e, d, others-cancelled m (ground arith) w)

  Mapped-cancelled : (m : List (ℕ × ℕ)) → Mapped js m → Mapped (set_cancelled r js) (erase id m)
  unfolding find erase
  Mapped-cancelled [] w = tt
  Mapped-cancelled ((k, s) ∷ m) (e, d, w) = elim (Bool-cases (k == id)) [
    | inl same ↦
        let f : k ≡ id = ground arith in
        rw (same, erase) (others-cancelled m (ap (λ (x : ℕ). find x m) (sym f) ∙ d) w)
    | inr other ↦
        rw (other, erase)
          (entry-cancelled k s (λ q. ground arith) e, find-erased k id m d, Mapped-cancelled m w)
  ]

-- What the map finds is an entry.
pub find-Entry :
    (js : List Job) (id r : ℕ) (m : List (ℕ × ℕ)) → Mapped js m → find id m ≡ some r → Entry js id r
unfolding find
find-Entry js id r [] w h = cc
find-Entry js id r ((k, s) ∷ m) (e, d, w) h = elim (Bool-cases (k == id)) [
  | inl same ↦
      let f : k ≡ id = ground arith in
      let now : find id ((k, s) ∷ m) ≡ some s = rw (same, find) refl in
      let g : s ≡ r = cc in subst (λ (x : ℕ). Entry js x r) f (subst (λ (x : ℕ). Entry js k x) g e)
  | inr other ↦ find-Entry js id r m w (ground arith)
]

Cursor-cancelled :
    (p : Pool) (r : ℕ) (m : List (ℕ × ℕ))
    → Cursor p
    → Cursor (record p { jobs = set_cancelled r p.jobs; migrating = m })
Cursor-cancelled p r m c = record {
  within = omega (arith, c.within, length-set_cancelled r p.jobs);
  unclaimed = λ i j h le.
      let (k, g, same) = get_elem?-set_cancelled r p.jobs i h in
      ground (arith, c.unclaimed i k g le, same);
  taken = λ i j h lt e.
      let (k, g, same) = get_elem?-set_cancelled r p.jobs i h in
      c.taken i k g lt (ground (arith, same, e));
}

Sources-cancelled : (r : ℕ) (js : List Job) (n : ℕ) → Sources js n → Sources (set_cancelled r js) n
Sources-cancelled r js n h =
    λ i j g. let (k, f, same) = get_elem?-set_cancelled r js i g in ground (arith, h i k f, same)

-- `cancel_migration` keeps the pool healthy.
pub cancel-Healthy : {p : Pool} (h : Healthy p) (id : ℕ) → Healthy (cancel_migration p id)
cancel-Healthy {p} h id =
    let v = cancel-Inv p id h.inv in
    let s = cancel-SameStore p id in
    record {
      inv = v.0;
      sized =
          SameTiers-Sized p (cancel_migration p id) s.cfg
            (subst (SameTiers p.tiers) (sym s.tiers) (SameTiers-refl p.tiers)) h.sized;
      cursor =
          cancel_cases Cursor p id (λ e. h.cursor)
            (λ r e. Cursor-cancelled p r (erase id p.migrating) h.cursor);
      mapped =
          cancel_cases (λ q. Mapped q.jobs q.migrating) p id (λ e. h.mapped)
            (λ r e.
              Mapped-cancelled p.jobs id r h.inv.queue.distinct
                (find-Entry p.jobs id r p.migrating h.mapped e) p.migrating h.mapped);
      some_tier = omega (arith, h.some_tier, ap (length {A = TierState}) s.tiers);
      sources =
          subst (λ (xs : List TierState). Sources (cancel_migration p id).jobs (length xs))
            (sym s.tiers)
            (cancel_cases (λ q. Sources q.jobs (length p.tiers)) p id (λ e. h.sources)
              (λ r e. Sources-cancelled r p.jobs (length p.tiers) h.sources));
      staffed =
          cancel_cases (λ q. 0 < length q.jobs → 0 < q.workers) p id (λ e. h.staffed)
            (λ r e some_job. h.staffed (omega (arith, some_job, length-set_cancelled r p.jobs)));
    }

-- A pool with the same queue, of the same sizes.
pub Healthy-tiers :
    {p q : Pool} (h : Healthy p)
    → Inv q q.jobs
    → q.cfg ≡ p.cfg
    → SameTiers p.tiers q.tiers
    → q.jobs ≡ p.jobs
    → q.migrating ≡ p.migrating
    → q.next_unclaimed ≡ p.next_unclaimed
    → q.workers ≡ p.workers
    → Healthy q
Healthy-tiers {p} {q} h v c t j m n w = record {
  inv = v;
  sized = SameTiers-Sized p q c t h.sized;
  cursor = record {
    within = omega (arith, h.cursor.within, n, ap (length {A = Job}) j);
    unclaimed = λ i k g le.
        h.cursor.unclaimed i k (ap (λ (js : List Job). get_elem? js i) (sym j) ∙ g)
          (omega (arith, n));
    taken = λ i k g lt.
        h.cursor.taken i k (ap (λ (js : List Job). get_elem? js i) (sym j) ∙ g) (omega (arith, n));
  };
  staffed =
      λ some_job. omega (arith, w, h.staffed (omega (arith, some_job, ap (length {A = Job}) j)));
  mapped =
      subst (λ (js : List Job). Mapped js q.migrating) (sym j)
        (subst (Mapped p.jobs) (sym m) h.mapped);
  some_tier = omega (arith, h.some_tier, SameTiers-length p.tiers q.tiers t);
  sources = λ i k g. omega (
    arith,
    h.sources i k (ap (λ (js : List Job). get_elem? js i) (sym j) ∙ g),
    SameTiers-length p.tiers q.tiers t,
  );
}

-- `decref` of a block with a reference keeps the pool healthy, and takes the reference away.
pub decref-Healthy :
    {p : Pool} (h : Healthy p) (b : ℕ)
    → 0 < refs p b
    → Returns (λ (freed, q). Healthy q × OneLess p b q × (freed ≡ (refs p b == 1))) (decref p b)
unfolding give_back put_free
decref-Healthy {p} h b some_ref =
    by_count (refs p b - 1) (refs-some (get_elem? p.refcount b) (refs p b - 1) (omega arith))
  where
    by_count :
        (c : ℕ)
        → get_elem? p.refcount b ≡ some (suc c)
        → Returns (λ (freed, q). Healthy q × OneLess p b q × (freed ≡ (refs p b == 1))) (decref p b)
    by_count zero e =
        let (loc, l) = used_location h.inv.storage b e in
        let (ts, g) = used_tier h.inv.storage b 0 loc e l in
        let run = decref-released h.inv b loc ts e l g in
        let q = cancel_migration p b in
        let same =
          ap (λ (xs : List TierState). get_elem? xs loc.tier) (cancel-SameStore p b).tiers ∙ g in
        let (w, one, f) = Returns-at (decref-OneLess h.inv b some_ref) run in
        (
          _,
          run,
          (
            Healthy-tiers (cancel-Healthy h b) w refl
                (SameTiers-set q.tiers loc.tier ts
                  (record ts { free_slots = loc.slot ∷ ts.free_slots }) same refl refl)
                refl refl refl refl,
            one,
            f,
          ),
        )
    by_count (suc c) e =
        let run = decref-recount h.inv.storage b e in
        let (w, one, f) = Returns-at (decref-OneLess h.inv b some_ref) run in
        (_, run, (Healthy-tiers h w refl (SameTiers-refl p.tiers) refl refl refl refl, one, f))
