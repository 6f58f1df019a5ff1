-- ===== src/Manager/Acquire/Promote.antt =====
-- The promotions of `acquire`: with a free slot for each they cannot fail.
use kvslab.Base.{
  ℕ, ◌+◌, ◌-◌, ◌≤◌, ◌<◌, ◌≡◌, refl, sym, ap, ◌∙◌, ◌≢◌, inl, inr, Bool, true, false, ◌&&◌, ◌||◌, not,
  some, List, [], ◌∷◌, arith, ◌==◌, if◌then◌else◌, u64, Bool-cases, length, get_elem?, is_empty,
  count, get_elem?-lt, get_elem?_of_lt, ok, for_each, Returns,
}
use mathlib.Core.Path.{subst}
use kvslab.Pool.{block_tier, migrating?, migrate, locate}
use kvslab.Pool.State.{Location, Pool}
use kvslab.Pool.Basic.{used_location}
use kvslab.Pool.Release.{used_tier}
use kvslab.Pool.Refs.{refs, refs-some, or_zero}
use kvslab.Pool.Health.{Healthy}
use kvslab.Pool.Health.Move.{migrate-Healthy}
use kvslab.Pool.Health.Async.{migrate_async-Healthy}
use kvslab.Pool.Health.Room.{
  room, slots_of, away, away-tier, away-Untouched, num_away, migrate-room, migrate_async-room,
}
use kvslab.Pool.Health.Untouched.{
  Untouched, Untouched-refl, Untouched-trans, migrate-Untouched, migrate_async-Untouched,
}
use kvslab.Manager.Maintain.{SameRefs, AllUsed, AllUsed-same}
use kvslab.Manager.Acquire.{count_promotion, promote_copy, promote}

-- The tier of a block in use.
in_use :
    {p : Pool} (h : Healthy p) (b : ℕ)
    → 0 < refs p b
    → (loc : Location) × (get_elem? p.location b ≡ some loc) × (block_tier p b ≡ ok loc.tier)
unfolding block_tier locate
in_use {p} h b used =
    let e = refs-some (get_elem? p.refcount b) (refs p b - 1) (omega (arith, used)) in
    let (loc, l) = used_location h.inv.storage b e in
    (loc, l, ground (arith, e, l, get_elem?-lt p.location b l))

count_promotion-away :
    {p : Pool} (h : Healthy p) (k b : ℕ)
    → 0 < refs p b
    → (v : Bool) → away p b ≡ v
    → count_promotion p k b ≡ ok (if v then k + 1 else k)
unfolding count_promotion
count_promotion-away {p} h k b used v w =
    let (loc, l, e) = in_use h b used in
    let a = sym (away-tier p b loc l) ∙ w in rw e (by_tests (loc.tier == 0) (migrating? p b) v a)
  where
    by_tests :
        (x y v : Bool)
        → (not x && not y) ≡ v
        → (if x then ok k else (if y then ok k else ok (k + 1))) ≡ ok (if v then k + 1 else k)
    by_tests true y v f = ap (λ (z : Bool). ok (if z then k + 1 else k)) f
    by_tests false true v f = ap (λ (z : Bool). ok (if z then k + 1 else k)) f
    by_tests false false v f = ap (λ (z : Bool). ok (if z then k + 1 else k)) f

-- The loop that counts the promotions.
pub count_promotion-num_away :
    (bs : List ℕ) (p : Pool) (k : ℕ)
    → Healthy p
    → AllUsed p bs
    → for_each (count_promotion p) bs k ≡ ok (k + num_away p bs)
count_promotion-num_away [] p k h us = ap (λ (x : ℕ). ok x) (omega arith)
count_promotion-num_away (b ∷ bs) p k h (u, us) =
    let v = away p b in
    let next = if v then k + 1 else k in
    rw (count_promotion-away h k b u v refl, for_each)
      (count_promotion-num_away bs p next h us ∙ ap (λ (x : ℕ). ok x) (by_test v (num_away p bs)))
  where
    by_test :
        (v : Bool) (rest : ℕ) → (if v then k + 1 else k) + rest ≡ k + ((if v then 1 else 0) + rest)
    by_test true rest = omega arith
    by_test false rest = omega arith

-- A promotion of one block: it is in the compute tier then, or on its way.
record Promoted (b : ℕ) (p q : Pool) : Type 0 where
  healthy : Healthy q
  same : SameRefs p q
  slot : room q + 1 ≡ room p
  home : away q b ≡ false
  others : (x : ℕ) → b ≢ x → Untouched x p q

module _ {p : Pool} (h : Healthy p) (b : ℕ) (used : 0 < refs p b) (loc : Location)
    (l : get_elem? p.location b ≡ some loc) (there : loc.tier ≢ 0) (some_room : 0 < room p) where
  by_migrate : Returns (λ (moved, q). (moved ≡ true) × Promoted b p q) (migrate p b 0)
  by_migrate =
      let e = refs-some (get_elem? p.refcount b) (refs p b - 1) (omega (arith, used)) in
      let (ts, g) = get_elem?_of_lt p.tiers 0 h.some_tier in
      let some_slot : 0 < length ts.free_slots = omega (arith, some_room, ap slots_of g) in
      let ((moved, q), run, (w, len, m)) = migrate-Healthy h b (refs p b - 1) loc 0 ts e l g in
      let went : moved ≡ true = m.answer ∙ not_empty ts.free_slots (loc.tier == 0) some_slot in
      let (new, at_new, to) = m.home in
      let new_home : new.tier ≡ 0 = to ∙ rw went refl in
      (
        (moved, q),
        run,
        (
          went,
          record {
            healthy = w;
            same = λ x. ap (λ (rs : List ℕ). or_zero (get_elem? rs x)) m.refcount;
            slot = migrate-room p b loc l there (run ∙ ap (λ (x : Bool). ok (x, q)) went);
            home = away-tier q b new at_new ∙ rw new_home refl;
            others = λ x ne. migrate-Untouched x b 0 p ne run;
          },
        ),
      )
    where
      not_empty : (xs : List ℕ) (z : Bool) → 0 < length xs → (z || not (is_empty xs)) ≡ true
      not_empty [] z s = absurd (omega arith)
      not_empty (x ∷ xs) true s = refl
      not_empty (x ∷ xs) false s = refl

  by_copy :
      (async : Bool)
      → Returns (λ (moved, q). (moved ≡ true) × Promoted b p q) (promote_copy async p b)
  unfolding promote_copy
  by_copy false = by_migrate
  by_copy true =
      let e = refs-some (get_elem? p.refcount b) (refs p b - 1) (omega (arith, used)) in
      let (ts, g) = get_elem?_of_lt p.tiers 0 h.some_tier in
      let (src, k) = used_tier h.inv.storage b (refs p b - 1) loc e l in
      let ((started, q), run, (w, len, m)) =
        migrate_async-Healthy h b (refs p b - 1) loc 0 ts src e l g k in
      elim (migrate_async-room p b run) [
        | inl (went, slot, coming) ↦ (
          (true, q),
          rw (run, went) refl,
          (
            refl,
            record {
              healthy = w;
              same = λ x. ap (λ (rs : List ℕ). or_zero (get_elem? rs x)) m.refcount;
              slot = slot;
              home = ground (arith, coming);
              others = λ x ne. migrate_async-Untouched x b 0 p ne run;
            },
          ),
        )
        | inr (stayed, same) ↦
            let ((moved, r), again, x) = by_migrate in
            ((moved, r), rw (run, stayed) (rw same again), x)
      ]

num_away-Promoted :
    (b : ℕ) (p q : Pool) (bs : List ℕ) → Promoted b p q → num_away q bs ≤ num_away p bs
num_away-Promoted b p q [] x = omega arith
num_away-Promoted b p q (c ∷ bs) x =
    let rest = num_away-Promoted b p q bs x in
    elim (Bool-cases (b == c)) [
      | inl same ↦
          let e : b ≡ c = ground arith in
          let here : away q c ≡ false = subst (λ (y : ℕ). away q y ≡ false) e x.home in
          omega (arith, rest, ap {B = ℕ} (λ (v : Bool). if v then 1 else 0) here)
      | inr other ↦
          let as_was = away-Untouched (x.others c (λ e. ground arith)) in
          omega (arith, rest, ap {B = ℕ} (λ (v : Bool). if v then 1 else 0) as_was)
    ]

-- What the loop leaves: all of the blocks are in the compute tier, or on their way.
pub record AllPromoted (bs : List ℕ) (p q : Pool) : Type 0 where
  pub healthy : Healthy q
  pub same : SameRefs p q
  pub slots : room p ≤ room q + num_away p bs
  pub home : (b : ℕ) → 0 < count b bs → away q b ≡ false
  pub others : (b : ℕ) → count b bs ≡ 0 → Untouched b p q

-- A block that need not move is skipped.
promote-stays :
    {p : Pool} (h : Healthy p) (async : Bool) (n b : ℕ)
    → 0 < refs p b
    → away p b ≡ false
    → promote async (n, p) b ≡ ok (n, p)
unfolding promote
promote-stays {p} h async n b used stays =
    let (loc, l, e) = in_use h b used in
    let a = sym (away-tier p b loc l) ∙ stays in
    let skip : (loc.tier == 0 || migrating? p b) ≡ true =
      either (loc.tier == 0) (migrating? p b) a in
    rw e (rw skip refl)
  where
    either : (x y : Bool) → (not x && not y) ≡ false → (x || y) ≡ true
    either true y f = refl
    either false true f = refl
    either false false f = cc

promote-moves :
    {p : Pool} (h : Healthy p) (async : Bool) (n b : ℕ)
    → 0 < refs p b
    → away p b ≡ true
    → 0 < room p
    → (q : Pool) × (promote async (n, p) b ≡ ok (u64 (n + 1), q)) × Promoted b p q
unfolding promote
promote-moves {p} h async n b used moves some_room =
    let (loc, l, e) = in_use h b used in
    let a = sym (away-tier p b loc l) ∙ moves in
    let skip : (loc.tier == 0 || migrating? p b) ≡ false =
      neither (loc.tier == 0) (migrating? p b) a in
    let there : loc.tier ≢ 0 = λ z. ground (arith, z) in
    let ((moved, q), run, (went, x)) = by_copy h b used loc l there some_room async in
    (q, rw e (rw skip (rw run (rw went refl))), x)
  where
    neither : (x y : Bool) → (not x && not y) ≡ true → (x || y) ≡ false
    neither true y f = cc
    neither false true f = cc
    neither false false f = refl

home-cons :
    (q : Pool) (b : ℕ) (bs : List ℕ)
    → ((c : ℕ) → 0 < count c bs → away q c ≡ false)
    → (count b bs ≡ 0 → away q b ≡ false)
    → (c : ℕ) → 0 < count c (b ∷ bs)
    → away q c ≡ false
home-cons q b bs rest first c some_c = elim (Bool-cases (count c bs == 0)) [
  | inr later ↦ rest c (ground arith)
  | inl never ↦
      let same : b ≡ c = ground arith in
      subst (λ (z : ℕ). away q z ≡ false) same (first (ground (arith, same)))
]

cost-true : {v : Bool} → v ≡ true → ◌≡◌ {A = ℕ} (if v then 1 else 0) 1
cost-true e = rw e refl

cost-false : {v : Bool} → v ≡ false → ◌≡◌ {A = ℕ} (if v then 1 else 0) 0
cost-false e = rw e refl

-- With a free slot for each block that is away the promotions do not fail.
pub promote_all :
    (bs : List ℕ) (async : Bool) (n : ℕ) {p : Pool}
    → Healthy p
    → AllUsed p bs
    → num_away p bs ≤ room p
    → Returns (λ (k, q). AllPromoted bs p q) (for_each (promote async) bs (n, p))
promote_all [] async n {p} h us le = (
  (n, p),
  refl,
  record {
    healthy = h;
    same = λ x. refl;
    slots = omega arith;
    home = λ b some_b. absurd (omega arith);
    others = λ b no_b. Untouched-refl b p;
  },
)
promote_all (b ∷ bs) async n {p} h (u, us) le = elim (Bool-cases (away p b)) [
  | inr stays ↦
      let cost = cost-false stays in
      let ((k, q), run, x) = promote_all bs async n h us (omega (arith, le, cost)) in
      (
        (k, q),
        rw (promote-stays h async n b u stays, for_each) run,
        record {
          healthy = x.healthy;
          same = x.same;
          slots = omega (arith, x.slots, cost);
          home = home-cons q b bs x.home (λ no_b. away-Untouched (x.others b no_b) ∙ stays);
          others = λ c no_c. x.others c (ground arith);
        },
      )
  | inl moves ↦
      let cost = cost-true moves in
      let (r, first, y) = promote-moves h async n b u moves (omega (arith, le, cost)) in
      let fewer = num_away-Promoted b p r bs y in
      let ((k, q), run, x) =
        promote_all bs async (u64 (n + 1)) y.healthy (AllUsed-same p r bs y.same us)
          (omega (arith, le, fewer, y.slot, cost)) in
      (
        (k, q),
        rw (first, for_each) run,
        record {
          healthy = x.healthy;
          same = λ c. x.same c ∙ y.same c;
          slots = omega (arith, x.slots, y.slot, fewer, cost);
          home = home-cons q b bs x.home (λ no_b. away-Untouched (x.others b no_b) ∙ y.home);
          others = λ c no_c.
              Untouched-trans {p = p} {q = r} {r = q} (y.others c (λ e. ground arith))
                (x.others c (ground arith));
        },
      )
]
