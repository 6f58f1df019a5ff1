-- ===== src/Pool/Health.antt =====
-- What the pool keeps beside its invariant: the sizes of the tiers, the claim cursor, and a map of the
-- blocks on their way that names their jobs.
pub mod Steps
pub mod Drain
pub mod Landed
pub mod Round
pub mod Move
pub mod Async
pub mod Queries
pub mod Untouched
pub mod Room
pub mod Work
pub mod Turns
use kvslab.Base.{
  ℕ, zero, suc, ◌+◌, ◌-◌, ◌*◌, ◌/◌, ◌%◌, ◌^◌, ◌≤◌, ◌<◌, min, ◌≡◌, refl, sym, ap, ◌∙◌, ◌≢◌, ◌↔◌, ◌⊎◌,
  inl, inr, Bool, true, false, ◌&&◌, ◌||◌, not, Option, none, some, List, [], ◌∷◌, ◌++◌, arith, ltb,
  leb, ◌==◌, if◌then◌else◌, u32, u64, sub32, sub64, Bool-cases, Option-cases, length, get_elem?,
  set, take, drop, replicate, is_empty, count, list_eq, length-append, length-set, get_elem?-lt,
  get_elem?_of_lt, get_elem?-set_self, get_elem?-set_ne, get_elem?-set, get_elem?-append_one,
  take-append-drop, length-take, length-drop, length-replicate, list_eq→eq, list_eq_self, Error,
  bad_alloc, invalid_argument, fatal, assertion, undefined, out_of_fuel, Result, ok, err, ◌>>=◌,
  ◌>>◌, guard, at, for_each, at-some, Returns, Returns-bind, Returns-at, bind-inv, at-inv, ok-inj,
  guard-inv,
}
use kvslab.Types.{CacheConfig, block_bytes}
use kvslab.Pool.State.{TierState, Location, Job, Pool, Phase, queued, find, erase, set_cancelled}
use kvslab.Pool.Inv.{Inv, Queued}
use kvslab.Pool.Copy.{Sized}
use kvslab.Pool.Queue.Worker.{Cursor}

-- The map's entry for block `id` names a job of the queue, which is that block's and not cancelled.
abbrev pub Entry : List Job → ℕ → ℕ → Type 0
Entry js id r =
    (i : ℕ) × (j : Job) × (get_elem? js i ≡ some j)
    × (j.ref ≡ r)
    × (j.id ≡ id)
    × (j.cancelled ≡ false)

abbrev pub Mapped : List Job → List (ℕ × ℕ) → Type 0
Mapped js [] = Unit {0}
Mapped js ((id, r) ∷ m) = Entry js id r × (find id m ≡ none) × Mapped js m

abbrev pub Sources : List Job → ℕ → Type 0
Sources js n = (i : ℕ) (j : Job) → get_elem? js i ≡ some j → j.src_tier < n

pub record Healthy (p : Pool) : Type 0 where
  pub inv : Inv p p.jobs
  pub sized : Sized p
  pub cursor : Cursor p
  pub mapped : Mapped p.jobs p.migrating
  pub some_tier : 0 < length p.tiers
  -- The block of a job comes from a tier of the pool.
  pub sources : Sources p.jobs (length p.tiers)
  -- There are workers once there are jobs.
  pub staffed : 0 < length p.jobs → 0 < p.workers

-- The same tiers, but for their free slots and their bytes.
abbrev pub SameTiers : List TierState → List TierState → Type 0
SameTiers [] [] = Unit {0}
SameTiers [] (y ∷ ys) = ⊥
SameTiers (x ∷ xs) [] = ⊥
SameTiers (x ∷ xs) (y ∷ ys) =
    (y.num_blocks ≡ x.num_blocks) × (y.tier.capacity ≡ x.tier.capacity) × SameTiers xs ys

pub SameTiers-refl : (xs : List TierState) → SameTiers xs xs
SameTiers-refl [] = tt
SameTiers-refl (x ∷ xs) = (refl, refl, SameTiers-refl xs)

pub SameTiers-set :
    (xs : List TierState) (t : ℕ) (old new : TierState)
    → get_elem? xs t ≡ some old
    → new.num_blocks ≡ old.num_blocks
    → new.tier.capacity ≡ old.tier.capacity
    → SameTiers xs (set xs t new)
SameTiers-set [] t old new h e f = tt
SameTiers-set (x ∷ xs) zero old new h e f =
    let same : x ≡ old = cc in
    (
      e ∙ ap (λ (s : TierState). s.num_blocks) (sym same),
      f ∙ ap (λ (s : TierState). s.tier.capacity) (sym same),
      SameTiers-refl xs,
    )
SameTiers-set (x ∷ xs) (suc t) old new h e f = (refl, refl, SameTiers-set xs t old new h e f)

pub SameTiers-trans :
    (xs ys zs : List TierState) → SameTiers xs ys → SameTiers ys zs → SameTiers xs zs
SameTiers-trans [] [] [] h k = tt
SameTiers-trans [] [] (z ∷ zs) h k = absurd k
SameTiers-trans [] (y ∷ ys) zs h k = absurd h
SameTiers-trans (x ∷ xs) [] zs h k = absurd h
SameTiers-trans (x ∷ xs) (y ∷ ys) [] h k = absurd k
SameTiers-trans (x ∷ xs) (y ∷ ys) (z ∷ zs) (e, f, h) (g, i, k) =
    (g ∙ e, i ∙ f, SameTiers-trans xs ys zs h k)

pub SameTiers-length : (xs ys : List TierState) → SameTiers xs ys → length ys ≡ length xs
SameTiers-length [] [] h = refl
SameTiers-length [] (y ∷ ys) h = absurd h
SameTiers-length (x ∷ xs) [] h = absurd h
SameTiers-length (x ∷ xs) (y ∷ ys) (e, f, h) = ap suc (SameTiers-length xs ys h)

SameTiers-get :
    (xs ys : List TierState) (t : ℕ) (ts : TierState)
    → SameTiers xs ys
    → get_elem? ys t ≡ some ts
    → (old : TierState) × (get_elem? xs t ≡ some old)
      × (ts.num_blocks ≡ old.num_blocks)
      × (ts.tier.capacity ≡ old.tier.capacity)
SameTiers-get [] [] t ts h g = cc
SameTiers-get [] (y ∷ ys) t ts h g = absurd h
SameTiers-get (x ∷ xs) [] t ts h g = absurd h
SameTiers-get (x ∷ xs) (y ∷ ys) zero ts (e, f, h) g =
    let same : y ≡ ts = cc in
    (
      x,
      refl,
      ap (λ (s : TierState). s.num_blocks) (sym same) ∙ e,
      ap (λ (s : TierState). s.tier.capacity) (sym same) ∙ f,
    )
SameTiers-get (x ∷ xs) (y ∷ ys) (suc t) ts (e, f, h) g = SameTiers-get xs ys t ts h g

pub SameTiers-Sized : (p q : Pool) → q.cfg ≡ p.cfg → SameTiers p.tiers q.tiers → Sized p → Sized q
SameTiers-Sized p q e h z = record {
  fits = λ t ts g.
      let (old, i, n, c) = SameTiers-get p.tiers q.tiers t ts h g in
      let b : block_bytes q.cfg ≡ block_bytes p.cfg = ap block_bytes e in
      let (fit, lt) = z.fits t old i in (rw (n, c, b) fit, omega (arith, c, lt));
}
