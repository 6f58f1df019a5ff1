-- ===== src/Pool/Health/Work.antt =====
-- The workers keep a healthy pool healthy, and each of their steps leaves them less to do.
use kvslab.Base.{
  ℕ, zero, suc, ◌+◌, ◌<◌, ◌≡◌, refl, sym, ap, ◌∙◌, ◌≢◌, inl, inr, some, List, [], ◌∷◌, arith, ◌==◌,
  Bool-cases, length, get_elem?, set, length-set, get_elem?-lt, get_elem?_of_lt, get_elem?-set_self,
  get_elem?-set_ne, Returns,
}
use kvslab.Pool.State.{Job, Phase, queued, claimed, copying, copied, done, Pool}
use kvslab.Pool.Queue.{set_phase, put_copy, copy_job}
use kvslab.Pool.Queue.Drain.{with_queue}
use kvslab.Pool.Queue.Worker.{Cursor, set_cases, set_phase-Inv, put_copy-Inv, reserved_tier}
use kvslab.Pool.Health.{Mapped, Healthy, SameTiers, SameTiers-refl, SameTiers-set, SameTiers-Sized}
use kvslab.Pool.Health.Steps.{Healthy-tiers}

-- How many steps of a worker a job has before it at most.
unfoldable pub left : Phase → ℕ
left queued = 4
left claimed = 3
left copying = 2
left copied = 1
left done = 0

unfoldable pub to_do : List Job → ℕ
unfolding left
to_do [] = 0
to_do (j ∷ js) = left j.phase + to_do js

pub to_do-set :
    (js : List Job) (i : ℕ) (j new : Job)
    → get_elem? js i ≡ some j
    → to_do (set js i new) + left j.phase ≡ to_do js + left new.phase
unfolding to_do
to_do-set [] i j new h = cc
to_do-set (x ∷ js) zero j new h =
    let same : x ≡ j = cc in omega (arith, ap (λ (k : Job). left k.phase) same)
to_do-set (x ∷ js) (suc i) j new h = omega (arith, to_do-set js i j new h)

-- What a step of a worker leaves as it was.
pub record SameBooks (p q : Pool) : Type 0 where
  pub refcount : q.refcount ≡ p.refcount
  pub location : q.location ≡ p.location
  pub workers : q.workers ≡ p.workers
  pub pending : length q.jobs ≡ length p.jobs
  pub tiers : SameTiers p.tiers q.tiers

pub SameBooks-refl : (p : Pool) → SameBooks p p
SameBooks-refl p = record {
  refcount = refl;
  location = refl;
  workers = refl;
  pending = refl;
  tiers = SameTiers-refl p.tiers;
}

module _ {p : Pool} (h : Healthy p) (i : ℕ) (j : Job) (g : get_elem? p.jobs i ≡ some j)
    (phase : Phase) where
  abbrev new : Job
  new = record j { phase = phase }

  phased-Mapped : (m : List (ℕ × ℕ)) → Mapped p.jobs m → Mapped (set p.jobs i new) m
  phased-Mapped [] w = tt
  phased-Mapped ((id, r) ∷ m) ((k, a, f, e, b, c), d, w) = (
    elim (Bool-cases (i == k)) [
      | inl same ↦
          let at_k : i ≡ k = ground arith in
          let one : some j ≡ some a = sym g ∙ ap (get_elem? p.jobs) at_k ∙ f in
          let both : j ≡ a = cc in
          (
            i,
            new,
            get_elem?-set_self p.jobs i new (get_elem?-lt p.jobs i g),
            ap (λ (x : Job). x.ref) both ∙ e,
            ap (λ (x : Job). x.id) both ∙ b,
            ap (λ (x : Job). x.cancelled) both ∙ c,
          )
      | inr other ↦ (k, a, get_elem?-set_ne p.jobs i k new (λ q. ground arith) ∙ f, e, b, c)
    ],
    d,
    phased-Mapped m w,
  )

  abbrev after : ℕ → Pool
  after n = record (set_phase p i j phase) { next_unclaimed = n }

  pub phased-Healthy : (n : ℕ) → Cursor (after n) → Healthy (after n)
  unfolding set_phase
  phased-Healthy n c = record {
    inv = with_queue (set p.jobs i new) n (set_phase-Inv h.inv i j g phase);
    sized = SameTiers-Sized p (after n) refl (SameTiers-refl p.tiers) h.sized;
    cursor = c;
    mapped = phased-Mapped p.migrating h.mapped;
    some_tier = h.some_tier;
    sources = λ k a f. elim (set_cases p.jobs i k j new a g f) [
      | inl (q, e) ↦ omega (arith, h.sources i j g, ap (λ (x : Job). x.src_tier) e)
      | inr (d, o) ↦ h.sources k a o
    ];
    staffed = λ some_job. h.staffed (omega (arith, some_job, length-set p.jobs i new));
  }

  -- The phase of a job that has been claimed.
  in_hand-Cursor : j.phase ≢ queued → phase ≢ queued → Cursor (after p.next_unclaimed)
  unfolding set_phase
  in_hand-Cursor mine moved = record {
    within = omega (arith, h.cursor.within, length-set p.jobs i new);
    unclaimed = λ k a f le. elim (set_cases p.jobs i k j new a g f) [
      | inl (q, e) ↦ absurd (mine (h.cursor.unclaimed i j g (omega (arith, q, le))))
      | inr (d, o) ↦ h.cursor.unclaimed k a o le
    ];
    taken = λ k a f lt e. elim (set_cases p.jobs i k j new a g f) [
      | inl (q, same) ↦ moved (sym (ap (λ (x : Job). x.phase) same) ∙ e)
      | inr (d, o) ↦ h.cursor.taken k a o lt e
    ];
  }

-- A worker that can go on with job `i` has less to do after it.
pub in_hand-Healthy :
    {p : Pool} (h : Healthy p) (i : ℕ) (j : Job) (g : get_elem? p.jobs i ≡ some j) (phase : Phase)
    → j.phase ≢ queued
    → phase ≢ queued
    → left phase < left j.phase
    → let q = set_phase p i j phase in Healthy q × SameBooks p q × (to_do q.jobs < to_do p.jobs)
unfolding set_phase
in_hand-Healthy {p} h i j g phase mine moved less = (
  phased-Healthy h i j g phase p.next_unclaimed (in_hand-Cursor h i j g phase mine moved),
  record {
    refcount = refl;
    location = refl;
    workers = refl;
    pending = length-set p.jobs i (record j { phase = phase });
    tiers = SameTiers-refl p.tiers;
  },
  omega (arith, less, to_do-set p.jobs i j (record j { phase = phase }) g),
)

-- What one step of a worker does to a pool.
abbrev pub Went : Pool → Pool → Type 0
Went p q = Healthy q × SameBooks p q × (to_do q.jobs < to_do p.jobs)

pub copy-Healthy :
    {p : Pool} (h : Healthy p) (i : ℕ) (j : Job)
    → get_elem? p.jobs i ≡ some j
    → j.phase ≡ copying
    → Returns (Went p) (copy_job p i j)
unfolding copy_job left
copy-Healthy {p} h i j g e =
    let (src, s) = get_elem?_of_lt p.tiers j.src_tier (h.sources i j g) in
    let (dst, d) = reserved_tier h.inv.storage i j g in
    let q = put_copy p j src dst in
    let same : SameTiers p.tiers q.tiers =
      unfold put_copy in SameTiers-set p.tiers j.dst_tier dst _ d refl refl in
    let k : Healthy q =
      Healthy-tiers h (put_copy-Inv p.jobs j src dst d h.inv) (unfold put_copy in refl) same
        (unfold put_copy in refl) (unfold put_copy in refl) (unfold put_copy in refl)
        (unfold put_copy in refl) in
    let (a, b, c) =
      in_hand-Healthy k i j (unfold put_copy in g) copied (λ f. clash (sym e ∙ f)) (λ f. clash2 f)
        (omega (arith, ap left e)) in
    (
      set_phase q i j copied,
      ground (arith, s, d),
      (
        a,
        unfold put_copy in
            record {
              refcount = b.refcount;
              location = b.location;
              workers = b.workers;
              pending = b.pending;
              tiers = same;
            },
        unfold put_copy in c,
      ),
    )
  where
    clash : copying ≡ queued → ⊥
    clash f = cc

    clash2 : copied ≡ queued → ⊥
    clash2 f = cc
