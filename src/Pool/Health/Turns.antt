-- ===== src/Pool/Health/Turns.antt =====
-- The turns of the workers: each that can be taken does not fail and keeps a healthy pool healthy.
use kvslab.Base.{
  ℕ, ◌+◌, ◌≡◌, refl, ap, inl, inr, true, some, arith, u64, Bool-cases, Option-cases, get_elem?,
  length-set, get_elem?-lt, get_elem?_of_lt, ok, Returns, Returns-at,
}
use kvslab.Pool.State.{Job, Phase, queued, claimed, copying, copied, done, Pool}
use kvslab.Pool.Queue.{claim, set_phase, work_on, work}
use kvslab.Pool.Queue.Turns.{Turn, claims, goes_on, turn, in_hand, is_busy}
use kvslab.Pool.Queue.Worker.{length-jobs-lt, claim-Inv}
use kvslab.Pool.Health.{Healthy, SameTiers-refl}
use kvslab.Pool.Health.Work.{left, to_do-set, phased-Healthy, in_hand-Healthy, Went, copy-Healthy}

claims-Healthy : {p : Pool} (h : Healthy p) → is_busy p claims ≡ true → Returns (Went p) (claim p)
unfolding is_busy claim set_phase left
claims-Healthy {p} h busy =
    let (j, g) = get_elem?_of_lt p.jobs p.next_unclaimed (ground arith) in
    let n : u64 (p.next_unclaimed + 1) ≡ p.next_unclaimed + 1 =
      omega (arith, length-jobs-lt h.inv h.cursor, get_elem?-lt p.jobs p.next_unclaimed g) in
    let e : claim p
        ≡ ok (record (set_phase p p.next_unclaimed j claimed) {
          next_unclaimed = p.next_unclaimed + 1;
        }) =
      ground (arith, g, n) in
    let (v, c) = Returns-at (claim-Inv h.inv h.cursor) e in
    (
      _,
      e,
      (
        phased-Healthy h p.next_unclaimed j g claimed (p.next_unclaimed + 1) c,
        record {
          refcount = refl;
          location = refl;
          workers = refl;
          pending = length-set p.jobs p.next_unclaimed (record j { phase = claimed });
          tiers = SameTiers-refl p.tiers;
        },
        omega (
          arith,
          to_do-set p.jobs p.next_unclaimed j (record j { phase = claimed }) g,
          ap left (h.cursor.unclaimed p.next_unclaimed j g (omega arith)),
        ),
      ),
    )

goes_on-Healthy :
    {p : Pool} (h : Healthy p) (i : ℕ) → is_busy p (goes_on i) ≡ true → Returns (Went p) (work p i)
unfolding is_busy work work_on left
goes_on-Healthy {p} h i busy = elim (Option-cases (get_elem? p.jobs i)) [
  | inl nothing ↦ absurd (ground (arith, nothing))
  | inr (j, g) ↦
      let (q, e, w) = by_phase j g j.phase refl (ground (arith, g)) in (q, ground (arith, g, e), w)
]
  where
    by_phase :
        (j : Job)
        → get_elem? p.jobs i ≡ some j
        → (ph : Phase) → j.phase ≡ ph
        → in_hand ph ≡ true
        → Returns (Went p) (work_on p i j ph)
    by_phase j g queued e b = absurd cc
    by_phase j g claimed e b = elim (Bool-cases j.cancelled) [
      | inl c ↦ (
        _,
        rw c refl,
        in_hand-Healthy h i j g copied (λ f. cc) (λ f. cc) (omega (arith, ap left e)),
      )
      | inr c ↦ (
        _,
        rw c refl,
        in_hand-Healthy h i j g copying (λ f. cc) (λ f. cc) (omega (arith, ap left e)),
      )
    ]
    by_phase j g copying e b = copy-Healthy h i j g e
    by_phase j g copied e b =
        (_, refl, in_hand-Healthy h i j g done (λ f. cc) (λ f. cc) (omega (arith, ap left e)))
    by_phase j g done e b = absurd cc

-- A turn that some worker can take does not fail, and leaves less to do.
pub turn-Went :
    {p : Pool} (h : Healthy p) (t : Turn) → is_busy p t ≡ true → Returns (Went p) (turn p t)
unfolding turn
turn-Went h claims busy = claims-Healthy h busy
turn-Went h (goes_on i) busy = goes_on-Healthy h i busy
