-- ===== src/Manager/Acquire/Room.antt =====
-- How `acquire` makes room in the compute tier: by demotion, then by eviction.
use kvslab.Radix.Pin.Same.{NoMore}
use kvslab.Radix.Pin.Anchor.{Pruned-NoMore}
use kvslab.Base.{
  ℕ, zero, suc, ◌+◌, ◌-◌, ◌<◌, ◌≡◌, refl, sym, ap, ◌∙◌, inl, inr, ◌&&◌, List, [], ◌∷◌, arith, ltb,
  ◌==◌, u64, Bool-cases, length, get_elem?, count, get_elem?_of_lt, ok, Returns,
}
use mathlib.Core.Path.{subst}
use kvslab.Pool.State.{Pool}
use kvslab.Pool.Basic.{used_location}
use kvslab.Pool.Refs.{refs, refs-some, or_zero}
use kvslab.Pool.Health.{Healthy}
use kvslab.Pool.Health.Queries.{num_free-Healthy}
use kvslab.Pool.Health.Move.{migrate-Healthy}
use kvslab.Pool.Health.Untouched.{Untouched, Untouched-refl, Untouched-trans, migrate-Untouched}
use kvslab.Radix.State.{Tree}
use kvslab.Radix.Evict.{evict, total}
use kvslab.Radix.Evict.Loop.{Evicted}
use kvslab.Radix.Evict.Keeps.{evict-Healthy}
use kvslab.Radix.Evict.Pick.{AllMayMove, pick_demotion_victims-Picked}
use kvslab.Radix.Pin.Locked.{locked, Pruned-locked, AllUnlocked-from}
use kvslab.Radix.Pin.Anchor.{SameWay, Pruned-SameWay}
use kvslab.Radix.Steady.{Steady, evict-Steady}
use kvslab.Manager.{Stats, Manager}
use kvslab.Manager.Serving.{Serving}
use kvslab.Manager.Maintain.{SameRefs, Steady-same, AllUsed, AllUsed-same, AllMayMove-AllUsed}
use kvslab.Manager.Acquire.{demote_now, make_room, evict_rounds, evict_for}

-- The manager has room made: the invariant holds, and the nodes with pins, their blocks and the ways to
-- them are as they were.
pub record Cleared (held pins : ℕ → ℕ) (m n : Manager) : Type 0 where
  pub serving : Serving held pins n
  pub same : (b : ℕ) → locked b n.tree.children ≡ locked b m.tree.children
  pub untouched : (b : ℕ) → 0 < locked b m.tree.children → Untouched b m.pool n.pool
  pub ways : (q : ℕ) → 0 < pins q → SameWay q m.tree.children n.tree.children
  pub fewer : NoMore m.tree.children n.tree.children
  pub same_options : n.options ≡ m.options
  pub same_cfg : n.cfg ≡ m.cfg

demote_now-Healthy :
    (done : ℕ) (bs : List ℕ) (p : Pool)
    → Healthy p
    → 1 < length p.tiers
    → AllUsed p bs
    → Returns
        (λ (n, q). Healthy q × SameRefs p q × ((b : ℕ) → count b bs ≡ 0 → Untouched b p q))
        (demote_now done bs p)
unfolding demote_now
demote_now-Healthy done [] p h two used =
    ((done, p), refl, (h, (λ b. refl), (λ b no_b. Untouched-refl b p)))
demote_now-Healthy done (v ∷ bs) p h two (u, us) =
    let e = refs-some (get_elem? p.refcount v) (refs p v - 1) (omega (arith, u)) in
    let (loc, l) = used_location h.inv.storage v e in
    let (ts, k) = get_elem?_of_lt p.tiers 1 two in
    let ((moved, q), g, (w, len, m)) = migrate-Healthy h v (refs p v - 1) loc 1 ts e l k in
    let same : SameRefs p q = λ x. ap (λ (rs : List ℕ). or_zero (get_elem? rs x)) m.refcount in
    let here : (b : ℕ) → count b (v ∷ bs) ≡ 0 → Untouched b p q =
      λ b no_b. migrate-Untouched b v 1 p (λ f. ground arith) g in
    elim (Bool-cases moved) [
      | inr full ↦ ((done, q), rw (g, full) refl, (w, same, here))
      | inl went ↦
          let ((n, r), f, (z, again, there)) =
            demote_now-Healthy (u64 (done + 1)) bs q w (omega (arith, two, len))
              (AllUsed-same p q bs same us) in
          (
            (n, r),
            rw (g, went) f,
            (
              z,
              (λ x. omega (arith, same x, again x)),
              (λ b no_b.
                  Untouched-trans {p = p} {q = q} {r = r} (here b no_b) (there b (ground arith))),
            ),
          )
    ]

Cleared-refl : {held pins : ℕ → ℕ} {m : Manager} (s : Serving held pins m) → Cleared held pins m m
Cleared-refl {m} s = record {
  serving = s;
  same = λ b. refl;
  untouched = λ b pinned. Untouched-refl b m.pool;
  ways = λ q some_pin. (refl, λ b. refl);
  fewer = λ b. omega arith;
  same_options = refl;
  same_cfg = refl;
}

-- The demotions on the request path do not fail, keep the invariant, and touch no block of a node with
-- a pin.
pub make_room-Cleared :
    {held pins : ℕ → ℕ} {m : Manager} (s : Serving held pins m) (demand : ℕ)
    → Returns (Cleared held pins m) (make_room m demand)
unfolding make_room
make_room-Cleared {held} {pins} {m} s demand =
    let (ts, g, free) = num_free-Healthy s.healthy in
    let room = length ts.free_slots in
    elim (Bool-cases (ltb room demand && ltb 1 (length m.pool.tiers))) [
      | inr enough ↦ (m, rw (free, enough) refl, Cleared-refl s)
      | inl short ↦
          let ((n, victims), e, ((added, f, all, le), len)) =
            pick_demotion_victims-Picked held m.pool m.tree s.steady.sound [] (demand - room) in
          let may : AllMayMove m.pool m.tree.children victims =
            subst (AllMayMove m.pool m.tree.children) (sym f) all in
          let used = AllMayMove-AllUsed m.pool m.tree.children victims may in
          let ((done, q), run, (h, same, others)) =
            demote_now-Healthy m.stats.demoted_blocks victims m.pool s.healthy (ground arith)
              used in
          (
            record m { pool = q; stats = record m.stats { demoted_blocks = done } },
            rw (free, short) (rw (e, run) refl),
            record {
              serving = record {
                healthy = h;
                steady = Steady-same s.steady q h.inv same;
                same_tokens = s.same_tokens;
              };
              same = λ b. refl;
              untouched = λ b pinned.
                  others b (ground (arith, AllUnlocked-from s.steady.sound victims b may));
              ways = λ q some_pin. (refl, λ b. refl);
              fewer = λ b. omega arith;
              same_options = refl;
              same_cfg = refl;
            },
          )
    ]

pub Cleared-trans :
    {held pins : ℕ → ℕ} {m n r : Manager}
    → Cleared held pins m n
    → Cleared held pins n r
    → Cleared held pins m r
Cleared-trans c d = record {
  serving = d.serving;
  same = λ b. d.same b ∙ c.same b;
  untouched = λ b pinned.
      Untouched-trans (c.untouched b pinned) (d.untouched b (omega (arith, pinned, c.same b)));
  ways = λ q some_pin.
      let (e, f) = c.ways q some_pin in let (g, i) = d.ways q some_pin in (g ∙ e, λ b. i b ∙ f b);
  fewer = λ b. omega (arith, c.fewer b, d.fewer b);
  same_options = d.same_options ∙ c.same_options;
  same_cfg = d.same_cfg ∙ c.same_cfg;
}

-- One call of `evict`, whatever the statistics are then.
evict-Cleared :
    {held pins : ℕ → ℕ} {m : Manager} (s : Serving held pins m) (num f : ℕ) (q : Pool) (u : Tree)
    → Steady held pins q u
    → Evicted held m.tree 0 f q u
    → evict num m.pool m.tree ≡ ok (f, q, u)
    → (stats : Stats) → Cleared held pins m (record m { pool = q; tree = u; stats = stats })
evict-Cleared {pins} {m} s num f q u steady x e stats =
    let (h, others) = evict-Healthy s.healthy s.steady.sound num f q u e in
    record {
      serving = record {
        healthy = h;
        steady = steady;
        same_tokens = x.same_tokens ∙ s.same_tokens;
      };
      same = λ b. Pruned-locked b x.pruned;
      untouched = others;
      ways = λ q some_pin. Pruned-SameWay q pins x.pruned s.steady.counted some_pin;
      fewer = Pruned-NoMore x.pruned;
      same_options = refl;
      same_cfg = refl;
    }

-- With a round for each block of the tree and one more, the loop comes to an end.
evict_rounds-Cleared :
    (fuel : ℕ) {held pins : ℕ → ℕ} {m : Manager} (s : Serving held pins m) (demand : ℕ)
    → total m.tree.children < fuel
    → Returns (Cleared held pins m) (evict_rounds fuel m demand)
unfolding evict_rounds
evict_rounds-Cleared zero s demand lt = absurd (omega arith)
evict_rounds-Cleared (suc fuel) {held} {pins} {m} s demand lt =
    let (ts, g, free) = num_free-Healthy s.healthy in
    let room = length ts.free_slots in
    elim (Bool-cases (ltb room demand)) [
      | inr enough ↦ (m, rw (free, enough) refl, Cleared-refl s)
      | inl short ↦
          let ((f, q, u), e, (steady, x)) = evict-Steady s.steady (demand - room) in
          elim (Bool-cases (f == 0)) [
            | inl nothing ↦ (
              record m { pool = q; tree = u },
              rw (free, short) (rw (e, nothing) refl),
              evict-Cleared s (demand - room) f q u steady x e m.stats,
            )
            | inr some_freed ↦
                let stats : Stats = record m.stats {
                  evicted_blocks = u64 (m.stats.evicted_blocks + f);
                } in
                let c = evict-Cleared s (demand - room) f q u steady x e stats in
                let (n, run, d) =
                  evict_rounds-Cleared fuel c.serving demand (ground (arith, x.exact)) in
                (n, rw (free, short) (rw (e, some_freed) run), Cleared-trans c d)
          ]
    ]

-- The evictions of `acquire` come to an end and do not fail, keep the invariant, and touch no block of a
-- node with a pin.
pub evict_for-Cleared :
    {held pins : ℕ → ℕ} {m : Manager} (s : Serving held pins m) (demand : ℕ)
    → Returns (Cleared held pins m) (evict_for m demand)
unfolding evict_for
evict_for-Cleared {m} s demand =
    evict_rounds-Cleared (suc (total m.tree.children)) s demand (omega arith)
