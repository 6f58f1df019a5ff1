-- ===== src/Pool/Health/Move.antt =====
-- `migrate` keeps a healthy pool healthy.
use kvslab.Base.{
  ℕ, suc, ◌+◌, ◌≡◌, refl, sym, ap, ◌∙◌, inl, inr, Bool, false, ◌&&◌, some, List, [], ◌∷◌, arith,
  ltb, leb, ◌==◌, u64, Bool-cases, length, get_elem?, set, get_elem?-lt, get_elem?-set_self,
  get_elem?-set_ne, fatal, assertion, Result, ok, at, Returns, bind-inv, at-inv, ok-inj, guard-inv,
}
use mathlib.Core.Path.{subst}
use kvslab.Tier.{Tier, Bytes, read, write}
use kvslab.Pool.{locate, copy_block, rebind, move_block, move_located, migrate, cancel_migration}
use kvslab.Pool.State.{Location, TierState, Pool, put_free}
use kvslab.Pool.Inv.{Inv}
use kvslab.Pool.Cancel.{cancel-SameStore}
use kvslab.Pool.Migrate.{Migrated, migrate-Migrated}
use kvslab.Pool.Health.{
  Healthy, SameTiers, SameTiers-refl, SameTiers-set, SameTiers-trans, SameTiers-length,
}
use kvslab.Pool.Health.Steps.{cancel-Healthy, Healthy-tiers}

-- What a move leaves: the queue, and the sizes of the tiers.
pub record SameFrame (p q : Pool) : Type 0 where
  pub cfg : q.cfg ≡ p.cfg
  pub tiers : SameTiers p.tiers q.tiers
  pub jobs : q.jobs ≡ p.jobs
  pub migrating : q.migrating ≡ p.migrating
  pub next_unclaimed : q.next_unclaimed ≡ p.next_unclaimed
  pub workers : q.workers ≡ p.workers

pub SameFrame-refl : (p : Pool) → SameFrame p p
SameFrame-refl p = record {
  cfg = refl;
  tiers = SameTiers-refl p.tiers;
  jobs = refl;
  migrating = refl;
  next_unclaimed = refl;
  workers = refl;
}

pub SameFrame-Healthy : {p q : Pool} → SameFrame p q → Healthy p → Inv q q.jobs → Healthy q
SameFrame-Healthy f h v =
    Healthy-tiers h v f.cfg f.tiers f.jobs f.migrating f.next_unclaimed f.workers

write-capacity :
    (dst : Tier) (offset : ℕ) (src : Bytes) (bytes : ℕ) {t : Tier}
    → write dst offset src bytes ≡ ok t
    → t.capacity ≡ dst.capacity
unfolding write
write-capacity dst offset src bytes h = sym (
    ap (λ (t : Tier). t.capacity)
      (ok-inj (guard-inv (leb (u64 (offset + bytes)) dst.capacity) assertion _ h)))

-- The destination keeps its size.
copy_block-capacity :
    (p : Pool) (src : Tier) (i : ℕ) (dst : Tier) (k : ℕ) {b : Bytes} {t : Tier}
    → copy_block p src i dst k ≡ ok (b, t)
    → t.capacity ≡ dst.capacity
unfolding copy_block read write
copy_block-capacity p src i dst k h = elim (Bool-cases (src.addressable && dst.addressable)) [
  | inl y ↦ sym (ap capacity_of (ok-inj (rw (y, copy_block) at h)))
  | inr n ↦
      let (bounce, e, rest) = bind-inv (read src _ p.bounce _) _ (rw (n, copy_block) at h) in
      let (t2, f, last) = bind-inv (write dst _ bounce _) _ rest in
      sym (ap capacity_of (ok-inj last)) ∙ write-capacity dst _ bounce _ f
]
  where
    capacity_of : Bytes × Tier → ℕ
    capacity_of (b, t) = t.capacity

rebind-SameFrame :
    (p : Pool) (id dst : ℕ) (loc : Location) (old dst_state : TierState) (slot : ℕ)
    (src : TierState) (bounce : Bytes)
    → get_elem? p.tiers dst ≡ some old
    → get_elem? p.tiers loc.tier ≡ some src
    → dst_state.num_blocks ≡ old.num_blocks
    → dst_state.tier.capacity ≡ old.tier.capacity
    → SameFrame p (rebind p id dst loc dst_state slot src bounce)
unfolding rebind put_free
rebind-SameFrame p id dst loc old dst_state slot src bounce k h n c = record {
  cfg = refl;
  tiers =
      SameTiers-trans p.tiers (set p.tiers dst dst_state) _
        (SameTiers-set p.tiers dst old dst_state k n c)
        (elim (Bool-cases (dst == loc.tier)) [
          | inl same ↦
              let e : dst ≡ loc.tier = ground arith in
              let one : some old ≡ some src = sym k ∙ ap (get_elem? p.tiers) e ∙ h in
              let blocks : old.num_blocks ≡ src.num_blocks = cc in
              let size : old.tier.capacity ≡ src.tier.capacity = cc in
              SameTiers-set (set p.tiers dst dst_state) loc.tier dst_state _
                (ap (get_elem? (set p.tiers dst dst_state)) (sym e)
                  ∙ get_elem?-set_self p.tiers dst dst_state (get_elem?-lt p.tiers dst k))
                (sym blocks ∙ sym n) (sym size ∙ sym c)
          | inr other ↦
              SameTiers-set (set p.tiers dst dst_state) loc.tier src _
                (get_elem?-set_ne p.tiers dst loc.tier dst_state (λ e. ground arith) ∙ h) refl refl
        ]);
  jobs = refl;
  migrating = refl;
  next_unclaimed = refl;
  workers = refl;
}

move_located-SameFrame :
    (p : Pool) (id dst : ℕ) (loc : Location) {moved : Bool} {q : Pool}
    → move_located p id dst loc ≡ ok (moved, q)
    → SameFrame p q
unfolding move_located move_block
move_located-SameFrame p id dst loc h = elim (Bool-cases (loc.tier == dst)) [
  | inl there ↦ stays (rw (there, move_located) at h)
  | inr away ↦
      let (old, e, rest) = bind-inv (at p.tiers dst) _ (rw (away, move_located) at h) in
      by_slot old (at-inv p.tiers dst e) old.free_slots rest
]
  where
    stays :
        {moved moved2 : Bool} {q : Pool}
        → ◌≡◌ {A = Result (Bool × Pool)} (ok (moved2, p)) (ok (moved, q))
        → SameFrame p q
    stays f = subst (SameFrame p) (ap (λ (x : Bool × Pool). x.1) (ok-inj f)) (SameFrame-refl p)

    by_slot :
        {moved : Bool} {q : Pool} (old : TierState)
        → get_elem? p.tiers dst ≡ some old
        → (free : List ℕ)
        → ◌≡◌ {A = Result (Bool × Pool)}
            (elim free [ [] ↦ ok (false, p) | slot ∷ rest ↦ move_block p id dst loc old slot rest ])
            (ok (moved, q))
        → SameFrame p q
    by_slot old k [] f = stays f
    by_slot old k (slot ∷ rest) f =
        let (src, e, f2) = bind-inv (at p.tiers loc.tier) _ f in
        let ((bounce, t), g, f3) = bind-inv (copy_block p src.tier loc.slot old.tier slot) _ f2 in
        subst (SameFrame p) (ap (λ (x : Bool × Pool). x.1) (ok-inj f3)) (
          rebind-SameFrame p id dst loc old (record old { tier = t; free_slots = rest }) slot src
            bounce k (at-inv p.tiers loc.tier e) refl
            (copy_block-capacity p src.tier loc.slot old.tier slot g))

-- `migrate` keeps the queue but for the job that it cancels.
pub migrate-SameFrame :
    (p : Pool) (id dst : ℕ) {moved : Bool} {q : Pool}
    → migrate p id dst ≡ ok (moved, q)
    → SameFrame (cancel_migration p id) q
unfolding migrate
migrate-SameFrame p id dst h =
    let m = cancel_migration p id in
    let (loc, e, rest) = bind-inv (locate m id) _ h in
    move_located-SameFrame m id dst loc (guard-inv (ltb dst (length m.tiers)) fatal _ rest)

-- `migrate` of a block in use, to a tier of the pool, keeps the pool healthy.
pub migrate-Healthy :
    {p : Pool} (h : Healthy p) (id c : ℕ) (loc : Location) (dst : ℕ) (ts : TierState)
    → get_elem? p.refcount id ≡ some (suc c)
    → get_elem? p.location id ≡ some loc
    → get_elem? p.tiers dst ≡ some ts
    → Returns
        (λ (moved, q).
          Healthy q × (length q.tiers ≡ length p.tiers) × Migrated p id dst loc ts moved q)
        (migrate p id dst)
migrate-Healthy {p} h id c loc dst ts r l k =
    let ((moved, q), e, m) = migrate-Migrated h.inv h.sized id c loc dst ts r l k in
    let f = migrate-SameFrame p id dst e in
    let same = cancel-SameStore p id in
    (
      (moved, q),
      e,
      (
        SameFrame-Healthy f (cancel-Healthy h id) m.inv,
        SameTiers-length (cancel_migration p id).tiers q.tiers f.tiers
            ∙ ap (length {A = TierState}) same.tiers,
        m,
      ),
    )
