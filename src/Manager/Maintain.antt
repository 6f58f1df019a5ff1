-- ===== src/Manager/Maintain.antt =====
-- What `maintain` demotes, and that it keeps the invariant.
use kvslab.Base.{
  ℕ, suc, ◌+◌, ◌-◌, ◌≤◌, ◌<◌, ◌≡◌, refl, sym, ap, ◌∙◌, ◌⊎◌, inl, inr, Bool, false, ◌||◌, some, List,
  [], ◌∷◌, arith, ltb, leb, ◌==◌, if◌then◌else◌, u64, Bool-cases, length, get_elem?,
  get_elem?_of_lt, Result, ok, Returns, bind-inv, ok-inj,
}
use mathlib.Core.Path.{subst}
use kvslab.Pool.{num_free}
use kvslab.Pool.Queue.{pending_departures}
use kvslab.Radix.Evict.{pick_demotion_victims}
use kvslab.Pool.State.{Pool}
use kvslab.Pool.Inv.{Inv}
use kvslab.Pool.Refs.{refs, refs-some, or_zero}
use kvslab.Pool.Basic.{used_location}
use kvslab.Pool.Release.{used_tier}
use kvslab.Pool.Queue.{migrate_async}
use kvslab.Pool.Health.{Healthy}
use kvslab.Pool.Health.Queries.{num_free-Healthy, pending_departures-Healthy}
use kvslab.Pool.Health.Async.{migrate_async-Healthy}
use kvslab.Pool.Health.Untouched.{migrate_async-refused}
use kvslab.Radix.State.{Tree, Children}
use kvslab.Radix.Steady.{Steady}
use kvslab.Radix.Evict.Pick.{AllMayMove, pick_demotion_victims-Picked}
use kvslab.Manager.{Manager, demote_later, demote_for, maintain}
use kvslab.Manager.Serving.{Serving}

-- Each block has as many references in both.
abbrev pub SameRefs : Pool → Pool → Type 0
SameRefs p q = (b : ℕ) → refs q b ≡ refs p b

pub Steady-same :
    {held pins : ℕ → ℕ} {p : Pool} {t : Tree} (s : Steady held pins p t) (q : Pool)
    → Inv q q.jobs
    → SameRefs p q
    → Steady held pins q t
Steady-same s q v e = record {
  sound = record {
    pool = v;
    formed = s.sound.formed;
    owned = λ b. omega (arith, s.sound.owned b, e b);
    some_tokens = s.sound.some_tokens;
  };
  counted = s.counted;
  present = s.present;
}

-- Blocks in use.
abbrev pub AllUsed : Pool → List ℕ → Type 0
AllUsed p [] = Unit {0}
AllUsed p (b ∷ bs) = (0 < refs p b) × AllUsed p bs

pub AllUsed-same : (p q : Pool) (bs : List ℕ) → SameRefs p q → AllUsed p bs → AllUsed q bs
AllUsed-same p q [] e h = tt
AllUsed-same p q (b ∷ bs) e (h, hs) = (omega (arith, h, e b), AllUsed-same p q bs e hs)

pub AllMayMove-AllUsed :
    (p : Pool) (kids : Children) (bs : List ℕ) → AllMayMove p kids bs → AllUsed p bs
AllMayMove-AllUsed p kids [] h = tt
AllMayMove-AllUsed p kids (b ∷ bs) (h, hs) = (omega (arith, h.0), AllMayMove-AllUsed p kids bs hs)

-- A block in use, to a tier of the pool.
pub async-one :
    {p : Pool} (h : Healthy p) (b dst : ℕ)
    → 0 < refs p b
    → dst < length p.tiers
    → Returns
        (λ (started, q).
          Healthy q
          × SameRefs p q
          × (length q.tiers ≡ length p.tiers)
          × (length q.jobs ≡ length p.jobs + (if started then 1 else 0)))
        (migrate_async p b dst)
async-one {p} h b dst used lt =
    let e = refs-some (get_elem? p.refcount b) (refs p b - 1) (omega (arith, used)) in
    let (loc, l) = used_location h.inv.storage b e in
    let (src, g) = used_tier h.inv.storage b (refs p b - 1) loc e l in
    let (ts, k) = get_elem?_of_lt p.tiers dst lt in
    let ((started, q), f, (w, len, m)) =
      migrate_async-Healthy h b (refs p b - 1) loc dst ts src e l k g in
    (
      (started, q),
      f,
      (w, (λ x. ap (λ (rs : List ℕ). or_zero (get_elem? rs x)) m.refcount), len, m.pending),
    )

-- The pool, after `k` demotions, has no more of these blocks to demote, or refuses the next one.
abbrev pub Ends : List ℕ → ℕ → Pool → Type 0
Ends bs k q =
    (k ≡ length bs) ⊎ ((b : ℕ) × (get_elem? bs k ≡ some b) × (migrate_async q b 1 ≡ ok (false, q)))

-- Some of these blocks, from the first on, have got a job each.
abbrev pub Queues : ℕ → List ℕ → Pool → ℕ → Pool → Type 0
Queues started bs p n q =
    (k : ℕ) × (length q.jobs ≡ length p.jobs + k)
    × (u64 n ≡ u64 (started + k))
    × (k ≤ length bs)
    × Ends bs k q

Ends-more : (b : ℕ) (bs : List ℕ) (k : ℕ) (q : Pool) → Ends bs k q → Ends (b ∷ bs) (suc k) q
Ends-more b bs k q (inl all) = inl (ap suc all)
Ends-more b bs k q (inr (c, e, r)) = inr (c, e, r)

demote_later-Healthy :
    (started : ℕ) (bs : List ℕ) (p : Pool)
    → Healthy p
    → 1 < length p.tiers
    → AllUsed p bs
    → Returns
        (λ (n, q). Healthy q × SameRefs p q × Queues started bs p n q)
        (demote_later started bs p)
unfolding demote_later
demote_later-Healthy started [] p h two used =
    ((started, p), refl, (h, (λ b. refl), (0, omega arith, omega arith, omega arith, inl refl)))
demote_later-Healthy started (b ∷ bs) p h two (u, us) =
    let ((moved, q), e, (g, same, len, more)) = async-one h b 1 u two in
    elim (Bool-cases moved) [
      | inr full ↦
          let f : migrate_async p b 1 ≡ ok (false, q) =
            subst (λ (x : Bool). migrate_async p b 1 ≡ ok (x, q)) full e in
          let kept : p ≡ q = migrate_async-refused b 1 p f in
          (
            (started, q),
            rw (e, full) refl,
            (
              g,
              same,
              (
                0,
                omega (arith, ap (λ (x : Pool). length x.jobs) kept),
                omega arith,
                omega arith,
                inr (
                  b,
                  refl,
                  subst (λ (x : Pool). migrate_async x b 1 ≡ ok (false, x)) kept
                      (subst (λ (x : Pool). migrate_async p b 1 ≡ ok (false, x)) (sym kept) f),
                ),
              ),
            ),
          )
      | inl went ↦
          let one : length q.jobs ≡ length p.jobs + 1 = more ∙ rw went refl in
          let ((n, r), f, (k, again, (j, queued, counted, le, ends))) =
            demote_later-Healthy (u64 (started + 1)) bs q g (omega (arith, two, len))
              (AllUsed-same p q bs same us) in
          (
            (n, r),
            rw (e, went) f,
            (
              k,
              (λ x. omega (arith, same x, again x)),
              (
                suc j,
                omega (arith, queued, one),
                omega (arith, counted),
                omega (arith, le),
                Ends-more b bs j r ends,
              ),
            ),
          )
    ]

-- What `maintain` does where `lack` free slots are missing: the chosen blocks are put on the queue from
-- the first on, at most as many as are missing, up to the first that the pool refuses.
abbrev pub Demotes : ℕ → Manager → Manager → Type 0
Demotes lack m n =
    (v : ℕ) × (victims : List ℕ) × (pick_demotion_victims m.pool m.tree lack [] ≡ ok (v, victims))
    × (length victims ≤ lack)
    × Queues m.stats.background_demotions victims m.pool n.stats.background_demotions n.pool

-- What `maintain` does.
abbrev pub Maintained : Manager → Manager → Type 0
Maintained m n =
    if ltb (length m.pool.tiers) 2 || m.options.spill_watermark == 0
    then n ≡ m
    else ((free : ℕ) × (departing : ℕ) × (num_free m.pool ≡ ok free)
        × (pending_departures m.pool 0 ≡ ok departing)
        × (if leb m.options.spill_watermark (u64 (free + departing))
            then n ≡ m
            else Demotes (m.options.spill_watermark - u64 (free + departing)) m n))

demote_for-Serving :
    {held pins : ℕ → ℕ} {m : Manager} (s : Serving held pins m) (projected : ℕ)
    → 1 < length m.pool.tiers
    → Returns
        (λ n. Serving held pins n × Demotes (m.options.spill_watermark - projected) m n)
        (demote_for m projected)
unfolding demote_for
demote_for-Serving {held} {pins} {m} s projected two =
    let ((v, victims), e, ((added, f, all, le), len)) =
      pick_demotion_victims-Picked held m.pool m.tree s.steady.sound []
        (m.options.spill_watermark - projected) in
    let used =
      AllMayMove-AllUsed m.pool m.tree.children victims
        (subst (AllMayMove m.pool m.tree.children) (sym f) all) in
    let ((started, q), g, (h, same, queues)) =
      demote_later-Healthy m.stats.background_demotions victims m.pool s.healthy two used in
    (
      record m { pool = q; stats = record m.stats { background_demotions = started } },
      rw (e, g) refl,
      (
        record {
          healthy = h;
          steady = Steady-same s.steady q h.inv same;
          same_tokens = s.same_tokens;
        },
        (v, victims, e, omega (arith, le, ap (length {A = ℕ}) f), queues),
      ),
    )

pub maintain-Serving :
    {held pins : ℕ → ℕ} {m : Manager} (s : Serving held pins m)
    → Returns (λ n. Serving held pins n × Maintained m n) (maintain m)
unfolding maintain
maintain-Serving {held} {pins} {m} s =
    elim (Bool-cases (ltb (length m.pool.tiers) 2 || m.options.spill_watermark == 0)) [
      | inl off ↦ (m, rw off refl, (s, rw off refl))
      | inr on ↦
          let (ts, g, free) = num_free-Healthy s.healthy in
          let (departing, e) = pending_departures-Healthy s.healthy 0 in
          elim (Bool-cases
            (leb m.options.spill_watermark (u64 (length ts.free_slots + departing)))) [
              | inl enough ↦ (
                m,
                rw (on, free, e, enough) refl,
                (s, rw on (length ts.free_slots, departing, free, e, rw enough refl)),
              )
              | inr short ↦
                  let (n, f, (k, demotes)) =
                    demote_for-Serving s (u64 (length ts.free_slots + departing)) (ground arith) in
                  (
                    n,
                    rw (on, free, e, short) f,
                    (k, rw on (length ts.free_slots, departing, free, e, rw short demotes)),
                  )
            ]
    ]

-- `maintain` leaves the tree.
pub maintain-tree : (m : Manager) {n : Manager} → maintain m ≡ ok n → n.tree ≡ m.tree
unfolding maintain demote_for
maintain-tree m {n} e =
    elim (Bool-cases (ltb (length m.pool.tiers) 2 || m.options.spill_watermark == 0)) [
      | inl off ↦ same m refl (rw (off, maintain) at e)
      | inr on ↦
          let (free, f, r1) = bind-inv (num_free m.pool) _ (rw (on, maintain) at e) in
          let (departing, g, r2) = bind-inv (pending_departures m.pool 0) _ r1 in
          let projected = u64 (free + departing) in
          elim (Bool-cases (leb m.options.spill_watermark projected)) [
            | inl enough ↦ same m refl (rw enough at r2)
            | inr short ↦
                let (x, h, r3) =
                  bind-inv
                    (pick_demotion_victims m.pool m.tree (m.options.spill_watermark - projected) [])
                    _ (rw short at r2) in
                let ((started, q), i, last) =
                  bind-inv (demote_later m.stats.background_demotions x.1 m.pool) _ r3 in
                same
                  (record m { pool = q; stats = record m.stats { background_demotions = started } })
                  refl last
          ]
    ]
  where
    same :
        (r : Manager) → r.tree ≡ m.tree → ◌≡◌ {A = Result Manager} (ok r) (ok n) → n.tree ≡ m.tree
    same r f h = ap (λ (x : Manager). x.tree) (sym (ok-inj h)) ∙ f
