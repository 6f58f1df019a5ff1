-- ===== src/Manager/Acquire/Refusal.antt =====
-- `acquire` when the slots cannot be had, and the copies that it cancels before it counts them.
use kvslab.Base.{
  ℕ, suc, ◌+◌, ◌-◌, ◌<◌, ◌≡◌, refl, sym, ap, ◌∙◌, ◌⊎◌, inl, inr, false, Option, none, some, List,
  [], ◌∷◌, arith, ◌==◌, u64, Bool-cases, get_elem?, count, fatal, Result, ok, err, ◌>>=◌, for_each,
  Returns,
}
use kvslab.Pool.{migrating?, cancel_migration}
use mathlib.Core.Path.{subst}
use kvslab.Pool.State.{Job, Pool, find, set_cancelled, is_some}
use kvslab.Pool.Queue.{job_at, migration_target}
use kvslab.Pool.Cancel.{cancel-SameStore, cancel_cases}
use kvslab.Pool.Health.Landed.{find-erase_self}
use kvslab.Pool.Refs.{or_zero}
use kvslab.Pool.Health.{Healthy}
use kvslab.Pool.Health.Steps.{cancel-Healthy}
use kvslab.Pool.Health.Queries.{migration_target-Healthy}
use kvslab.Pool.Health.Untouched.{Untouched, Untouched-refl, Untouched-trans, cancel-Untouched}
use kvslab.Radix.Pin.Count.{SameNodes}
use kvslab.Radix.Steady.{PinOf, unlock-Steady}
use kvslab.Manager.{Manager, Allocation, no_allocation}
use kvslab.Manager.Serving.{Serving}
use kvslab.Manager.Maintain.{SameRefs, Steady-same}
use kvslab.Manager.Acquire.{keep_here, back_out}

-- What the loop does with the copy of a listed block: out of the compute tier it is cancelled, and
-- otherwise it is left.
abbrev pub KeptHere : ℕ → Pool → Pool → Type 0
KeptHere b p q =
    ((t : ℕ) × (migration_target p b ≡ ok (suc t)) × (find b q.migrating ≡ none))
    ⊎ (((migrating? p b ≡ false) ⊎ (migration_target p b ≡ ok 0)) × Untouched b p q)

-- What it does with each block: one that is not listed is left.
abbrev pub Fate : List ℕ → Pool → Pool → ℕ → Type 0
Fate bs p q b = ((count b bs ≡ 0) × Untouched b p q) ⊎ ((0 < count b bs) × KeptHere b p q)

-- A block whose copy is left is asked to the same tier as before.
abbrev SameTarget : Pool → Pool → Type 0
SameTarget p q =
    (b : ℕ)
    → Untouched b p q
    → (migrating? q b ≡ migrating? p b) × (migration_target q b ≡ migration_target p b)

-- What the loop over the matched blocks leaves.
abbrev Kept : List ℕ → Pool → Pool → Type 0
Kept bs p q =
    Healthy q
    × SameRefs p q
    × (q.tiers ≡ p.tiers)
    × (q.location ≡ p.location)
    × ((b : ℕ) → Fate bs p q b)

abbrev target_of : ℕ → List Job → Result ℕ
target_of n js = job_at n js >>= λ j. ok j.dst_tier

target_of-set_cancelled :
    (n r : ℕ) (js : List Job) → target_of n (set_cancelled r js) ≡ target_of n js
unfolding job_at set_cancelled
target_of-set_cancelled n r [] = refl
target_of-set_cancelled n r (j ∷ js) = elim (Bool-cases (j.ref == r)) [
  | inl mine ↦ elim (Bool-cases (j.ref == n)) [
    | inl y ↦ rw (mine, y) refl
    | inr o ↦ rw (mine, o) (target_of-set_cancelled n r js)
  ]
  | inr other ↦ elim (Bool-cases (j.ref == n)) [
    | inl y ↦ rw (other, y) refl
    | inr o ↦ rw (other, o) (target_of-set_cancelled n r js)
  ]
]

same_jobs-target :
    (p q : Pool) → ((n : ℕ) → target_of n q.jobs ≡ target_of n p.jobs) → SameTarget p q
unfolding migrating? migration_target is_some
same_jobs-target p q e b u = (
  ap is_some u.moving,
  ap (λ (o : Option ℕ). elim o [ none ↦ err fatal | some r ↦ target_of r q.jobs ]) u.moving
      ∙ by_entry (find b p.migrating),
)
  where
    by_entry :
        (o : Option ℕ)
        → ◌≡◌ {A = Result ℕ}
            (elim o [ none ↦ err fatal | some r ↦ target_of r q.jobs ])
            (elim o [ none ↦ err fatal | some r ↦ target_of r p.jobs ])
    by_entry none = refl
    by_entry (some r) = e r

cancel-SameTarget : (p : Pool) (b : ℕ) → SameTarget p (cancel_migration p b)
cancel-SameTarget p b = same_jobs-target p (cancel_migration p b) (
    cancel_cases (λ q. (n : ℕ) → target_of n q.jobs ≡ target_of n p.jobs) p b (λ e n. refl)
      (λ r e n. target_of-set_cancelled n r p.jobs))

-- A cancelled copy is no longer on its way.
cancel-find : {p : Pool} (h : Healthy p) (b : ℕ) → find b (cancel_migration p b).migrating ≡ none
cancel-find {p} h b =
    cancel_cases (λ q. find b q.migrating ≡ none) p b (λ e. e)
      (λ r e. find-erase_self p.jobs b p.migrating h.mapped)

keep_one-Kept :
    {p : Pool} (h : Healthy p) (b : ℕ)
    → Returns (λ q. Kept (b ∷ []) p q × SameTarget p q) (keep_here p b)
unfolding keep_here
keep_one-Kept {p} h b = elim (Bool-cases (migrating? p b)) [
  | inr still ↦ (p, rw still refl, unchanged (inl still))
  | inl moving ↦
      let (target, e) = migration_target-Healthy h b moving in
      elim (Bool-cases (target == 0)) [
        | inl comes ↦
            let here : target ≡ 0 = ground arith in
            (p, rw moving (rw (e, comes) refl), unchanged (inr (e ∙ ap (λ (t : ℕ). ok t) here)))
        | inr leaves ↦
            let s = cancel-SameStore p b in
            let away : target ≡ suc (target - 1) = ground arith in
            (
              cancel_migration p b,
              rw moving (rw (e, leaves) refl),
              (
                (
                  cancel-Healthy h b,
                  (λ x. ap (λ (rs : List ℕ). or_zero (get_elem? rs x)) s.refcount),
                  s.tiers,
                  s.location,
                  (λ x. elim (Bool-cases (b == x)) [
                    | inl same ↦
                        let it : b ≡ x = ground arith in
                        inr (
                          ground arith,
                          subst (λ (y : ℕ). KeptHere y p (cancel_migration p b)) it
                              (inl (target - 1, e ∙ ap (λ (t : ℕ). ok t) away, cancel-find h b)),
                        )
                    | inr other ↦ inl (ground arith, cancel-Untouched x b p (λ same. ground arith))
                  ]),
                ),
                cancel-SameTarget p b,
              ),
            )
      ]
]
  where
    unchanged :
        ((migrating? p b ≡ false) ⊎ (migration_target p b ≡ ok 0))
        → Kept (b ∷ []) p p × SameTarget p p
    unchanged stays = (
      (
        h,
        (λ x. refl),
        refl,
        refl,
        (λ x. elim (Bool-cases (b == x)) [
          | inl same ↦
              let it : b ≡ x = ground arith in
              inr (
                ground arith,
                subst (λ (y : ℕ). KeptHere y p p) it (inr (stays, Untouched-refl b p)),
              )
          | inr other ↦ inl (ground arith, Untouched-refl x p)
        ]),
      ),
      λ x u. (refl, refl),
    )

-- The fate of a block that the steps before have left.
KeptHere-before :
    {p q r : Pool} (x : ℕ) → SameTarget p q → Untouched x p q → KeptHere x q r → KeptHere x p r
KeptHere-before {p} {q} {r} x same u (inl (t, e, gone)) = inl (t, sym ((same x u).1) ∙ e, gone)
KeptHere-before {p} {q} {r} x same u (inr (inl still, w)) =
    inr (inl (sym ((same x u).0) ∙ still), Untouched-trans u w)
KeptHere-before {p} {q} {r} x same u (inr (inr comes, w)) =
    inr (inr (sym ((same x u).1) ∙ comes), Untouched-trans u w)

KeptHere-after :
    {p q r : Pool} (x : ℕ) (bs : List ℕ)
    → SameTarget p q
    → KeptHere x p q
    → Fate bs q r x
    → KeptHere x p r
KeptHere-after x bs same (inl (t, e, gone)) (inl (n, u)) = inl (t, e, u.moving ∙ gone)
KeptHere-after x bs same (inl (t, e, gone)) (inr (n, inl (t2, e2, g2))) = inl (t, e, g2)
KeptHere-after x bs same (inl (t, e, gone)) (inr (n, inr (s, u))) = inl (t, e, u.moving ∙ gone)
KeptHere-after x bs same (inr (s, w)) (inl (n, u)) = inr (s, Untouched-trans w u)
KeptHere-after x bs same (inr (s, w)) (inr (n, k)) = KeptHere-before x same w k

Fate-trans :
    {p q r : Pool} (b : ℕ) (bs : List ℕ) (x : ℕ)
    → SameTarget p q
    → Fate (b ∷ []) p q x
    → Fate bs q r x
    → Fate (b ∷ bs) p r x
Fate-trans b bs x same (inl (n, u)) (inl (k, w)) = inl (ground arith, Untouched-trans u w)
Fate-trans b bs x same (inl (n, u)) (inr (k, f)) = inr (ground arith, KeptHere-before x same u f)
Fate-trans b bs x same (inr (n, f)) g = inr (ground arith, KeptHere-after x bs same f g)

keep_all-Kept :
    (bs : List ℕ) {p : Pool} (h : Healthy p) → Returns (Kept bs p) (for_each keep_here bs p)
keep_all-Kept [] {p} h =
    (p, refl, (h, (λ x. refl), refl, refl, (λ x. inl (refl, Untouched-refl x p))))
keep_all-Kept (b ∷ bs) {p} h =
    let (q, e, ((g, same, tiers, places, fates), targets)) = keep_one-Kept h b in
    let (r, f, (k, again, tiers2, places2, rest)) = keep_all-Kept bs g in
    (
      r,
      rw (e, for_each) f,
      (
        k,
        (λ x. again x ∙ same x),
        tiers2 ∙ tiers,
        places2 ∙ places,
        (λ x. Fate-trans b bs x targets (fates x) (rest x)),
      ),
    )

-- The loop over the matched blocks that cancels copies out of the compute tier does not fail and keeps
-- the invariant. No block changes its place and no tier its free slots. Of each listed block a copy to
-- another tier than the compute tier is cancelled, and a copy to the compute tier goes on. The copies
-- of all other blocks go on.
pub keep_here-Serving :
    {held pins : ℕ → ℕ} {m : Manager} (s : Serving held pins m) (bs : List ℕ)
    → Returns
        (λ q.
          Serving held pins (record m { pool = q })
          × (q.tiers ≡ m.pool.tiers)
          × (q.location ≡ m.pool.location)
          × ((b : ℕ) → Fate bs m.pool q b))
        (for_each keep_here bs m.pool)
keep_here-Serving {m} s bs =
    let (q, e, (h, same, tiers, places, fates)) = keep_all-Kept bs s.healthy in
    (
      q,
      e,
      (
        record {
          healthy = h;
          steady = Steady-same s.steady q h.inv same;
          same_tokens = s.same_tokens;
        },
        tiers,
        places,
        fates,
      ),
    )

-- `back_out` in full.
pub back_out-Kept :
    {held pins pinned : ℕ → ℕ} {m : Manager} (s : Serving held pinned m) (a : Allocation)
    → PinOf a.pinned pins pinned
    → Returns
        (λ (b, n).
          Serving held pins n
          × (b ≡ no_allocation)
          × (n.pool ≡ m.pool)
          × (n.stats ≡ record m.stats { alloc_failures = u64 (m.stats.alloc_failures + 1) })
          × SameNodes m.tree.children n.tree.children)
        (back_out m a)
unfolding back_out
back_out-Kept {m} s a f =
    let (t, e, (steady, same, tokens)) = unlock-Steady a.pinned f s.steady in
    (
      (
        no_allocation,
        record m {
          tree = t;
          stats = record m.stats { alloc_failures = u64 (m.stats.alloc_failures + 1) };
        },
      ),
      rw e refl,
      (
        record { healthy = s.healthy; steady = steady; same_tokens = tokens ∙ s.same_tokens },
        refl,
        refl,
        refl,
        same,
      ),
    )

-- A request that is refused gives its pin back: this does not fail, keeps the invariant for the handles
-- that were out before, returns a handle that has nothing, touches no block, and counts one failure
-- more and nothing else.
pub back_out-Serving :
    {held pins pinned : ℕ → ℕ} {m : Manager} (s : Serving held pinned m) (a : Allocation)
    → PinOf a.pinned pins pinned
    → Returns
        (λ (b, n).
          Serving held pins n
          × (b ≡ no_allocation)
          × (n.pool ≡ m.pool)
          × (n.stats ≡ record m.stats { alloc_failures = u64 (m.stats.alloc_failures + 1) }))
        (back_out m a)
back_out-Serving s a f =
    let (x, e, (t, nothing, pool, stats, same)) = back_out-Kept s a f in
    (x, e, (t, nothing, pool, stats))
