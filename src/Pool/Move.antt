-- ===== src/Pool/Move.antt =====
-- `migrate` keeps the invariant of BlockPool.
use kvslab.Base.{
  ℕ, suc, ◌+◌, ◌*◌, ◌<◌, ◌≡◌, refl, sym, ap, ◌∙◌, ◌≢◌, some, List, ◌∷◌, arith, get_elem?, set,
  length-set, get_elem?-lt, get_elem?-set_ne, get_elem?-set,
}
use native.Mathlib.Decide.{ℕ_discrete}
use kvslab.Types.{block_bytes}
use kvslab.Tier.{Tier, Bytes, memcpy}
use kvslab.Pool.{rebind}
use kvslab.Pool.State.{Location, TierState, Job, Pool, put_free}
use kvslab.Pool.Slots.{occupants-set, occupants-le, set_same}
use kvslab.Pool.Free.{free_of-some, size_of-some, free_of-set, size_of-set, sum_free-set}
use kvslab.Pool.Inv.{Storage, Queued}
use kvslab.Pool.Content.{
  KeepsBytes, byte_at, arena_of, arena_of-set, arena_of-some, arena_of-set_same, memcpy_at,
  memcpy_apart, used_ne_free,
}
use kvslab.Pool.Cancel.{Idle}

-- The slots at the head of free lists, and those of blocks in use, are slots of their tiers.
pub free_slot-lt :
    {p : Pool} {js : List Job} (v : Storage p js) (t : ℕ) (ts : TierState) (slot : ℕ)
    (rest : List ℕ)
    → get_elem? p.tiers t ≡ some ts
    → ts.free_slots ≡ slot ∷ rest
    → slot < ts.num_blocks
free_slot-lt {p} v t ts slot rest h e =
    ground (arith, v.slots t slot, free_of-some p.tiers t ts h slot, size_of-some p.tiers t ts h)

pub used_slot-lt :
    {p : Pool} {js : List Job} (v : Storage p js) (id c : ℕ) (loc : Location) (ts : TierState)
    → get_elem? p.refcount id ≡ some (suc c)
    → get_elem? p.location id ≡ some loc
    → get_elem? p.tiers loc.tier ≡ some ts
    → loc.slot < ts.num_blocks
used_slot-lt {p} v id c loc ts r l h = ground (
  arith,
  v.slots loc.tier loc.slot,
  size_of-some p.tiers loc.tier ts h,
  occupants-le loc.tier loc.slot p.location p.refcount id loc (suc c) l r,
)

module _ {p : Pool} {js : List Job} (v : Storage p js) (id : ℕ) {c : ℕ}
    (r : get_elem? p.refcount id ≡ some (suc c)) (loc : Location)
    (l : get_elem? p.location id ≡ some loc) (src : TierState)
    (h : get_elem? p.tiers loc.tier ≡ some src) (dst : ℕ) (other : loc.tier ≢ dst) (ts : TierState)
    (k : get_elem? p.tiers dst ≡ some ts) (slot : ℕ) (rest : List ℕ)
    (e : ts.free_slots ≡ slot ∷ rest) (t : Tier) (bounce : Bytes) where
  abbrev pub taken : TierState
  taken = record ts { tier = t; free_slots = rest }

  source_still : get_elem? (set p.tiers dst taken) loc.tier ≡ some src
  source_still = get_elem?-set_ne p.tiers dst loc.tier taken (λ q. other (sym q)) ∙ h

  pub rebind-Storage : Storage (rebind p id dst loc taken slot src bounce) js
  unfolding rebind put_free
  rebind-Storage =
      let mid = set p.tiers dst taken in
      let freed : TierState = record src { free_slots = loc.slot ∷ src.free_slots } in
      let there : Location = record { tier = dst; slot = slot } in
      record {
        sizes = omega (arith, v.sizes, length-set p.location id there);
        slots = λ u s. ground (
          arith,
          v.slots u s,
          free_of-some p.tiers dst ts k s,
          free_of-some p.tiers loc.tier src h s,
          free_of-set p.tiers dst ts k taken u s,
          size_of-set p.tiers dst ts k taken u refl,
          free_of-set mid loc.tier src source_still freed u s,
          size_of-set mid loc.tier src source_still freed u refl,
          set_same p.refcount id (suc c) r,
          occupants-set u s p.location p.refcount id loc there (suc c) (suc c) l r,
        );
        ids = v.ids;
        balance = ground (
          arith,
          v.balance,
          sum_free-set p.tiers dst ts taken k,
          sum_free-set mid loc.tier src freed source_still,
        );
        population = v.population;
        valid_ids = v.valid_ids;
      }

  pub rebind-Queued :
      Queued p js → Idle js id → Queued (rebind p id dst loc taken slot src bounce) js
  unfolding rebind
  rebind-Queued w idle = record {
    in_flight = λ i j g c.
        let f = w.in_flight i j g c in
        let other : id ≢ j.id = λ e. idle i j g c (sym e) in
        record {
          mapped = f.mapped;
          loc = f.loc;
          others = f.others;
          located = get_elem?-set_ne p.location id j.id _ other ∙ f.located;
          used = f.used;
          leaves = f.leaves;
          from_tier = f.from_tier;
          from_slot = f.from_slot;
        };
    fresh = w.fresh;
    distinct = w.distinct;
  }

  -- The moved block has its bytes at the new slot, and no other block in use is touched.
  pub rebind-KeepsBytes :
      t.arena
        ≡ memcpy
            (block_bytes p.cfg)
            ts.tier.arena
            (slot * block_bytes p.cfg)
            src.tier.arena
            (loc.slot * block_bytes p.cfg)
      → KeepsBytes p (rebind p id dst loc taken slot src bounce)
  unfolding rebind put_free
  rebind-KeepsBytes copied n d a rn ln = elim (ℕ_discrete id n) [
    | yes q ↦ (
      there,
      moved q,
      λ i lt.
          rw (arenas dst, tier_dst)
            (rw copied
              (memcpy_at b ts.tier.arena slot src.tier.arena (loc.slot * b) i lt ∙ from q i)),
    )
    | no q ↦
        (a, get_elem?-set_ne p.location id n there q ∙ ln, λ i lt. rw (arenas a.tier) (kept i lt))
  ]
    where
      b : ℕ
      b = block_bytes p.cfg

      there : Location
      there = record { tier = dst; slot = slot }

      moved : id ≡ n → get_elem? (set p.location id there) n ≡ some there
      moved q = ground (arith, get_elem?-set p.location id n there, get_elem?-lt p.location id l)

      arenas :
          (u : ℕ)
          → arena_of (rebind p id dst loc taken slot src bounce).tiers u
            ≡ arena_of (set p.tiers dst taken) u
      arenas u = arena_of-set_same (set p.tiers dst taken) loc.tier src _ u source_still refl

      tier_dst : arena_of (set p.tiers dst taken) dst ≡ t.arena
      tier_dst = ground (arith, arena_of-set p.tiers dst ts taken dst k)

      from : id ≡ n → (i : ℕ) → src.tier.arena (loc.slot * b + i) ≡ byte_at p a i
      from q i =
          let same : loc ≡ a = ground (arith, l, ln) in
          ap (λ (f : Bytes). f (loc.slot * b + i)) (sym (arena_of-some p.tiers loc.tier src h))
          ∙ ap (λ (x : Location). byte_at p x i) same

      at_dst : dst ≡ a.tier → get_elem? p.tiers a.tier ≡ some ts
      at_dst q = ap (get_elem? p.tiers) (sym q) ∙ k

      free : dst ≡ a.tier → a.slot ≢ slot
      free q = used_ne_free v n d a ts slot rest rn ln (at_dst q) e

      into :
          dst ≡ a.tier
          → arena_of (set p.tiers dst taken) a.tier
            ≡ memcpy b ts.tier.arena (slot * b) src.tier.arena (loc.slot * b)
      into q = ap (arena_of (set p.tiers dst taken)) (sym q) ∙ tier_dst ∙ copied

      away : dst ≢ a.tier → arena_of (set p.tiers dst taken) a.tier ≡ arena_of p.tiers a.tier
      away q = ground (arith, arena_of-set p.tiers dst ts taken a.tier k)

      kept :
          (i : ℕ) → i < b → arena_of (set p.tiers dst taken) a.tier (a.slot * b + i) ≡ byte_at p a i
      kept i lt = elim (ℕ_discrete dst a.tier) [
        | yes q ↦
            ap (λ (f : Bytes). f (a.slot * b + i)) (into q)
            ∙ memcpy_apart b ts.tier.arena slot src.tier.arena (loc.slot * b) a.slot i (free q) lt
            ∙ ap (λ (f : Bytes). f (a.slot * b + i))
                (sym (arena_of-some p.tiers a.tier ts (at_dst q)))
        | no q ↦ ap (λ (f : Bytes). f (a.slot * b + i)) (away q)
      ]
