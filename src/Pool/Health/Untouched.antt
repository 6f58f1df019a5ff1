-- ===== src/Pool/Health/Untouched.antt =====
-- The operations on one block leave the others where they are, and on their way as they were.
use kvslab.Base.{
  ℕ, ◌-◌, ◌≡◌, refl, sym, ap, ◌∙◌, ◌≢◌, inl, inr, Bool, true, false, ◌&&◌, ◌||◌, not, Option, List,
  [], ◌∷◌, arith, ltb, ◌==◌, Bool-cases, length, get_elem?, set, get_elem?-set_ne, fatal, Result,
  ok, at, bind-inv, ok-inj, guard-inv,
}
use mathlib.Core.Path.{subst}
use kvslab.Pool.{
  locate, copy_block, cancel_migration, decref, last_ref, free_block, give_back, migrate,
  move_located, move_block, rebind, migrating?,
}
use kvslab.Pool.State.{Location, TierState, Pool, find, erase}
use kvslab.Pool.Cancel.{cancel_cases}
use kvslab.Pool.Queue.{migrate_async, async_located, try_enqueue, enqueue, ensure_worker}
use kvslab.Pool.Health.Move.{migrate-SameFrame}

-- Block `b` is where it was, and on its way by the same job, if any.
pub record Untouched (b : ℕ) (p q : Pool) : Type 0 where
  pub location : get_elem? q.location b ≡ get_elem? p.location b
  pub moving : find b q.migrating ≡ find b p.migrating

pub Untouched-refl : (b : ℕ) (p : Pool) → Untouched b p p
Untouched-refl b p = record { location = refl; moving = refl }

pub Untouched-trans : {b : ℕ} {p q r : Pool} → Untouched b p q → Untouched b q r → Untouched b p r
Untouched-trans h k = record { location = k.location ∙ h.location; moving = k.moving ∙ h.moving }

pub find-erase-other : (b id : ℕ) (m : List (ℕ × ℕ)) → id ≢ b → find b (erase id m) ≡ find b m
unfolding find erase
find-erase-other b id [] ne = refl
find-erase-other b id ((k, r) ∷ m) ne = ground (arith, find-erase-other b id m ne)

pub cancel-Untouched : (b id : ℕ) (p : Pool) → id ≢ b → Untouched b p (cancel_migration p id)
cancel-Untouched b id p ne =
    cancel_cases (Untouched b p) p id (λ e. Untouched-refl b p)
      (λ r e. record { location = refl; moving = find-erase-other b id p.migrating ne })

-- `migrate` of another block.
pub migrate-Untouched :
    (b id dst : ℕ) (p : Pool) {moved : Bool} {q : Pool}
    → id ≢ b
    → migrate p id dst ≡ ok (moved, q)
    → Untouched b p q
unfolding migrate move_located move_block rebind
migrate-Untouched b id dst p ne h =
    let m = cancel_migration p id in
    let (loc, e, rest) = bind-inv (locate m id) _ h in
    let f = migrate-SameFrame p id dst h in
    let c = cancel-Untouched b id p ne in
    record {
      location = by_place loc (guard-inv (ltb dst (length m.tiers)) fatal _ rest) ∙ c.location;
      moving = ap (find b) f.migrating ∙ c.moving;
    }
  where
    at_block : Bool × Pool → Option Location
    at_block (moved, q) = get_elem? q.location b

    by_slot :
        {moved : Bool} {q : Pool} (m : Pool) (loc : Location) (old : TierState) (free : List ℕ)
        → ◌≡◌ {A = Result (Bool × Pool)}
            (elim free [ [] ↦ ok (false, m) | slot ∷ more ↦ move_block m id dst loc old slot more ])
            (ok (moved, q))
        → get_elem? q.location b ≡ get_elem? m.location b
    by_slot m loc old [] f = sym (ap at_block (ok-inj f))
    by_slot m loc old (slot ∷ more) f =
        let (src, e, f2) = bind-inv (at m.tiers loc.tier) _ f in
        let ((bounce, t), g, f3) = bind-inv (copy_block m src.tier loc.slot old.tier slot) _ f2 in
        sym (ap at_block (ok-inj f3))
        ∙ get_elem?-set_ne m.location id b (record { tier = dst; slot = slot }) ne

    by_place :
        {moved : Bool} {q : Pool} (loc : Location)
        → move_located (cancel_migration p id) id dst loc ≡ ok (moved, q)
        → get_elem? q.location b ≡ get_elem? (cancel_migration p id).location b
    by_place loc f = elim (Bool-cases (loc.tier == dst)) [
      | inl there ↦ sym (ap at_block (ok-inj (rw (there, move_located) at f)))
      | inr away ↦
          let m = cancel_migration p id in
          let (old, e, g) = bind-inv (at m.tiers dst) _ (rw (away, move_located) at f) in
          by_slot m loc old old.free_slots g
    ]

-- `decref` of another block.
pub decref-Untouched :
    (b id : ℕ) (p : Pool) {freed : Bool} {q : Pool}
    → id ≢ b
    → decref p id ≡ ok (freed, q)
    → Untouched b p q
unfolding decref last_ref free_block give_back
decref-Untouched b id p ne h =
    let (c, e, r2) =
      bind-inv (at p.refcount id) _ (guard-inv (ltb id (length p.location)) fatal _ h) in
    let r3 = guard-inv (not (c == 0)) fatal _ r2 in
    let less : Pool = record p { refcount = set p.refcount id (c - 1) } in
    elim (Bool-cases (c - 1 == 0)) [
      | inr more ↦
          subst (λ (x : Bool × Pool). Untouched b p x.1) (ok-inj (rw more at r3))
            (record { location = refl; moving = refl })
      | inl last ↦
          let (r, f, r4) = bind-inv (free_block (cancel_migration less id) id) _ (rw last at r3) in
          let (loc, g, r5) = bind-inv (at (cancel_migration less id).location id) _ f in
          let (ts, i, r6) = bind-inv (at (cancel_migration less id).tiers loc.tier) _ r5 in
          let u = cancel-Untouched b id less ne in
          let w : Untouched b p r =
            subst (Untouched b p) (ok-inj r6)
              (record { location = u.location; moving = u.moving }) in
          subst (λ (x : Bool × Pool). Untouched b p x.1) (ok-inj r4) w
    ]

-- `migrate_async` of another block.
pub migrate_async-Untouched :
    (b id dst : ℕ) (p : Pool) {started : Bool} {q : Pool}
    → id ≢ b
    → migrate_async p id dst ≡ ok (started, q)
    → Untouched b p q
unfolding migrate_async async_located try_enqueue enqueue ensure_worker find
migrate_async-Untouched b id dst p ne h =
    let (loc, f, r1) = bind-inv (locate p id) _ h in
    let r2 = guard-inv (ltb dst (length p.tiers)) fatal _ r1 in
    elim (Bool-cases (loc.tier == dst || migrating? p id)) [
      | inl stays ↦ same (rw (stays, async_located) at r2)
      | inr goes ↦
          let (ts, g, r3) = bind-inv (at p.tiers dst) _ (rw (goes, async_located) at r2) in
          by_slot loc ts ts.free_slots r3
    ]
  where
    same :
        {started other : Bool} {q : Pool}
        → ◌≡◌ {A = Result (Bool × Pool)} (ok (other, p)) (ok (started, q))
        → Untouched b p q
    same f = subst (λ (x : Bool × Pool). Untouched b p x.1) (ok-inj f) (Untouched-refl b p)

    by_slot :
        (loc : Location) (ts : TierState) (free : List ℕ) {started : Bool} {q : Pool}
        → ◌≡◌ {A = Result (Bool × Pool)}
            (elim free [ [] ↦ ok (false, p) | slot ∷ rest ↦ try_enqueue p id dst loc ts slot rest ])
            (ok (started, q))
        → Untouched b p q
    by_slot loc ts [] f = same f
    by_slot loc ts (slot ∷ rest) f =
        let (src, e, g) = bind-inv (at p.tiers loc.tier) _ f in
        elim (Bool-cases (src.tier.addressable && ts.tier.addressable)) [
          | inr shut ↦ same (rw shut at g)
          | inl open_tiers ↦
              subst (λ (x : Bool × Pool). Untouched b p x.1) (ok-inj (rw open_tiers at g))
                (record { location = refl; moving = ground arith })
        ]

-- Where `migrate_async` answers false it has changed nothing.
pub migrate_async-refused :
    (id dst : ℕ) (p : Pool) {q : Pool} → migrate_async p id dst ≡ ok (false, q) → p ≡ q
unfolding migrate_async async_located try_enqueue
migrate_async-refused id dst p {q} h =
    let (loc, f, r1) = bind-inv (locate p id) _ h in
    let r2 = guard-inv (ltb dst (length p.tiers)) fatal _ r1 in
    elim (Bool-cases (loc.tier == dst || migrating? p id)) [
      | inl stays ↦ pool_of (ok-inj (rw (stays, async_located) at r2))
      | inr goes ↦
          let (ts, g, r3) = bind-inv (at p.tiers dst) _ (rw (goes, async_located) at r2) in
          by_slot loc ts ts.free_slots r3
    ]
  where
    pool_of : {a b : Bool × Pool} → a ≡ b → a.1 ≡ b.1
    pool_of e = ap (λ (x : Bool × Pool). x.1) e

    answer : true ≡ false → ⊥
    answer e = cc

    by_slot :
        (loc : Location) (ts : TierState) (free : List ℕ)
        → ◌≡◌ {A = Result (Bool × Pool)}
            (elim free [ [] ↦ ok (false, p) | slot ∷ rest ↦ try_enqueue p id dst loc ts slot rest ])
            (ok (false, q))
        → p ≡ q
    by_slot loc ts [] f = pool_of (ok-inj f)
    by_slot loc ts (slot ∷ rest) f =
        let (src, e, g) = bind-inv (at p.tiers loc.tier) _ f in
        elim (Bool-cases (src.tier.addressable && ts.tier.addressable)) [
          | inr shut ↦ pool_of (ok-inj (rw shut at g))
          | inl open_tiers ↦
              absurd (answer (ap (λ (x : Bool × Pool). x.0) (ok-inj (rw open_tiers at g))))
        ]
