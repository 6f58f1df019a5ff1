-- ===== src/Pool/Migrate.antt =====
-- `migrate` on each of its branches.
use kvslab.Base.{
  ℕ, suc, ◌+◌, ◌*◌, ◌≡◌, refl, ap, ◌∙◌, ◌≢◌, Bool, true, false, ◌||◌, not, some, List, [], ◌∷◌,
  arith, ltb, ◌==◌, if◌then◌else◌, length, get_elem?, is_empty, get_elem?-lt, get_elem?-set_self,
  ok, Returns,
}
use native.Mathlib.Decide.{ℕ_discrete}
use mathlib.Core.Path.{ap₂}
use kvslab.Types.{CacheConfig, block_bytes}
use kvslab.Tier.{Tier, Bytes, memcpy}
use kvslab.Pool.{cancel_migration, locate, migrate, rebind, copy_block}
use kvslab.Pool.State.{Location, TierState, Pool}
use kvslab.Pool.Inv.{Inv}
use kvslab.Pool.Copy.{Sized, copy_block_lem}
use kvslab.Pool.Content.{KeepsBytes, KeepsBytes-trivial, arena_of}
use kvslab.Pool.Release.{used_tier}
use kvslab.Pool.Cancel.{Idle, AfterCancel, cancel-Inv, SameStore, cancel-SameStore}
use kvslab.Pool.Move.{free_slot-lt, used_slot-lt, rebind-Storage, rebind-Queued, rebind-KeepsBytes}

-- A block that is in use is found.
pub locate-some :
    (p : Pool) (id c : ℕ) (loc : Location)
    → get_elem? p.refcount id ≡ some (suc c)
    → get_elem? p.location id ≡ some loc
    → locate p id ≡ ok loc
unfolding locate
locate-some p id c loc r l = ground (arith, r, l, get_elem?-lt p.location id l)

module _ (p : Pool) (id c : ℕ) (loc : Location) (dst : ℕ) (ts : TierState)
    (r : get_elem? p.refcount id ≡ some (suc c)) (l : get_elem? p.location id ≡ some loc)
    (k : get_elem? p.tiers dst ≡ some ts) where
  abbrev idle : Pool
  idle = cancel_migration p id

  same : SameStore p idle
  same = cancel-SameStore p id

  located : locate idle id ≡ ok loc
  located =
      locate-some idle id c loc (ap (λ (x : List ℕ). get_elem? x id) same.refcount ∙ r)
        (ap (λ (x : List Location). get_elem? x id) same.location ∙ l)

  tier_at : (t : ℕ) → get_elem? idle.tiers t ≡ get_elem? p.tiers t
  tier_at t = ap (λ (x : List TierState). get_elem? x t) same.tiers

  in_range : ltb dst (length idle.tiers) ≡ true
  in_range = ground (arith, get_elem?-lt idle.tiers dst (tier_at dst ∙ k))

  migrate-same : loc.tier ≡ dst → migrate p id dst ≡ ok (true, idle)
  unfolding migrate
  migrate-same e = rw (located, migrate) (ground (arith, in_range))

  migrate_full : loc.tier ≢ dst → ts.free_slots ≡ [] → migrate p id dst ≡ ok (false, idle)
  unfolding migrate
  migrate_full d e = rw (located, migrate) (ground (arith, in_range, tier_at dst))

  migrate-rebind :
      loc.tier ≢ dst
      → (src : TierState) (slot : ℕ) (rest : List ℕ) (b : Bytes) (t : Tier)
      → ts.free_slots ≡ slot ∷ rest
      → get_elem? p.tiers loc.tier ≡ some src
      → copy_block idle src.tier loc.slot ts.tier slot ≡ ok (b, t)
      → migrate p id dst
        ≡ ok (true, rebind idle id dst loc (record ts { tier = t; free_slots = rest }) slot src b)
  unfolding migrate
  migrate-rebind d src slot rest b t e h f =
      rw (located, migrate) (ground (arith, in_range, tier_at dst, tier_at loc.tier))

-- What `migrate` promises when it returns `moved`.
pub record Migrated (p : Pool) (id dst : ℕ) (loc : Location) (ts : TierState) (moved : Bool)
    (q : Pool) : Type 0 where
  pub inv : Inv q q.jobs
  pub idle : Idle q.jobs id
  pub answer : moved ≡ (loc.tier == dst || not (is_empty ts.free_slots))
  pub refcount : q.refcount ≡ p.refcount
  pub home :
      (new : Location) × (get_elem? q.location id ≡ some new)
      × (new.tier ≡ (if moved then dst else loc.tier))
  pub bytes : KeepsBytes p q

KeepsBytes-idle : (p : Pool) (id : ℕ) → KeepsBytes p (cancel_migration p id)
KeepsBytes-idle p id =
    let s = cancel-SameStore p id in
    KeepsBytes-trivial p (cancel_migration p id) s.cfg s.location
      (λ t. ap (λ (x : List TierState). arena_of x t) s.tiers)

KeepsBytes-from : {p m : Pool} (q : Pool) → SameStore p m → KeepsBytes m q → KeepsBytes p q
KeepsBytes-from {p} {m} q s keep id c loc r l =
    let (new, g, f) =
      keep id c loc (ap (λ (x : List ℕ). get_elem? x id) s.refcount ∙ r)
        (ap (λ (x : List Location). get_elem? x id) s.location ∙ l) in
    (
      new,
      g,
      λ i lt.
          f i (rw s.cfg lt)
          ∙ ap₂
              (λ (c : CacheConfig) (x : List TierState).
                arena_of x loc.tier (loc.slot * block_bytes c + i))
              s.cfg s.tiers,
    )

module _ {p : Pool} (v : Inv p p.jobs) (z : Sized p) (id c : ℕ) (loc : Location) (dst : ℕ)
    (ts : TierState) (r : get_elem? p.refcount id ≡ some (suc c))
    (l : get_elem? p.location id ≡ some loc) (k : get_elem? p.tiers dst ≡ some ts) where
  idle_now : AfterCancel id (cancel_migration p id)
  idle_now = cancel-Inv p id v

  -- Nothing is moved: the block is there already, or the tier is full.
  unmoved :
      (moved : Bool)
      → moved ≡ (loc.tier == dst || not (is_empty ts.free_slots))
      → (moved ≡ true → loc.tier ≡ dst)
      → Migrated p id dst loc ts moved (cancel_migration p id)
  unmoved moved e f =
      let s = cancel-SameStore p id in
      record {
        inv = idle_now.0;
        idle = idle_now.1;
        answer = e;
        refcount = s.refcount;
        home = (loc, ap (λ (x : List Location). get_elem? x id) s.location ∙ l, ground (arith, f));
        bytes = KeepsBytes-idle p id;
      }

  module _ (d : loc.tier ≢ dst) (src : TierState) (slot : ℕ) (rest : List ℕ)
      (e : ts.free_slots ≡ slot ∷ rest) (h : get_elem? p.tiers loc.tier ≡ some src) where
    -- The move, given what the copy returns.
    rebound :
        (bounce : Bytes) (t : Tier)
        → t.arena
          ≡ memcpy
              (block_bytes (cancel_migration p id).cfg)
              ts.tier.arena
              (slot * block_bytes (cancel_migration p id).cfg)
              src.tier.arena
              (loc.slot * block_bytes (cancel_migration p id).cfg)
        → Migrated p id dst loc ts true (
            rebind
              (cancel_migration p id)
              id
              dst
              loc
              (record ts { tier = t; free_slots = rest })
              slot
              src
              bounce)
    unfolding rebind
    rebound bounce t g =
        let q = cancel_migration p id in
        let s = cancel-SameStore p id in
        let r' : get_elem? q.refcount id ≡ some (suc c) =
          ap (λ (x : List ℕ). get_elem? x id) s.refcount ∙ r in
        let l' : get_elem? q.location id ≡ some loc =
          ap (λ (x : List Location). get_elem? x id) s.location ∙ l in
        let h' : get_elem? q.tiers loc.tier ≡ some src =
          ap (λ (x : List TierState). get_elem? x loc.tier) s.tiers ∙ h in
        let k' : get_elem? q.tiers dst ≡ some ts =
          ap (λ (x : List TierState). get_elem? x dst) s.tiers ∙ k in
        let w = idle_now.0 in
        record {
          inv = record {
            storage = rebind-Storage w.storage id r' loc l' src h' dst d ts k' slot rest e t bounce;
            queue =
                rebind-Queued w.storage id r' loc l' src h' dst d ts k' slot rest e t bounce w.queue
                  idle_now.1;
          };
          idle = idle_now.1;
          answer = ground arith;
          refcount = s.refcount;
          home = (
            record { tier = dst; slot = slot },
            get_elem?-set_self q.location id _ (get_elem?-lt q.location id l'),
            refl,
          );
          bytes =
              KeepsBytes-from
                (rebind q id dst loc (record ts { tier = t; free_slots = rest }) slot src bounce) s
                (rebind-KeepsBytes w.storage id r' loc l' src h' dst d ts k' slot rest e t bounce
                  g);
        }

    moves : Returns (λ (moved, q). Migrated p id dst loc ts moved q) (migrate p id dst)
    moves =
        let q = cancel_migration p id in
        let zs = z.fits loc.tier src h in
        let zt = z.fits dst ts k in
        let b' : block_bytes q.cfg ≡ block_bytes p.cfg =
          ap block_bytes (cancel-SameStore p id).cfg in
        let ((bounce, t), f, g) =
          copy_block_lem q src.tier loc.slot ts.tier slot src.num_blocks ts.num_blocks
            (used_slot-lt v.storage id c loc src r l h) (rw b' zs.0) zs.1
            (free_slot-lt v.storage dst ts slot rest k e) (rw b' zt.0) zt.1 in
        (
          _,
          migrate-rebind p id c loc dst ts r l k d src slot rest bounce t e h f,
          rebound bounce t (ap (λ (x : Tier). x.arena) g),
        )

  crowded :
      loc.tier ≢ dst
      → (free : List ℕ) → ts.free_slots ≡ free
      → Returns (λ (moved, q). Migrated p id dst loc ts moved q) (migrate p id dst)
  crowded d [] e =
      (_, migrate_full p id c loc dst ts r l k d e, unmoved false (ground arith) (λ q. cc))
  crowded d (slot ∷ rest) e =
      let (src, h) = used_tier v.storage id c loc r l in moves d src slot rest e h

  -- `migrate` of a block in use, to a tier of the pool, does not fail. It answers true exactly when
  -- the block was there already or the tier had a free slot, and then the block is in that tier;
  -- otherwise it stays in its own. In every case the invariant holds after it, no live job for the
  -- block is left, no count changes, and every block in use has the bytes that it had.
  pub migrate-Migrated : Returns (λ (moved, q). Migrated p id dst loc ts moved q) (migrate p id dst)
  migrate-Migrated = elim (ℕ_discrete loc.tier dst) [
    | yes e ↦ (_, migrate-same p id c loc dst ts r l k e, unmoved true (ground arith) (λ q. e))
    | no d ↦ crowded d ts.free_slots refl
  ]
