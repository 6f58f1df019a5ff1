-- ===== src/Pool/Content.antt =====
-- The bytes of a block, wherever it lives, and what a copy into another slot does to them.
use kvslab.Base.{
  ℕ, suc, ◌+◌, ◌-◌, ◌*◌, ◌≤◌, ◌<◌, ◌≡◌, ap, ◌∙◌, ◌≢◌, ◌⊎◌, inl, inr, Option, none, some, List, ◌∷◌,
  arith, ◌==◌, if◌then◌else◌, get_elem?, set, get_elem?-lt, get_elem?-set,
}
use native.Mathlib.Decide.{dec_lt}
use kvslab.Types.{block_bytes}
use kvslab.Tier.{Bytes, memcpy}
use kvslab.Pool.State.{Location, TierState, Job, Pool}
use kvslab.Pool.Slots.{occupants-le, occupants_two, reserved-le}
use kvslab.Pool.Free.{free_of-some}
use kvslab.Pool.Inv.{Storage}
use kvslab.Pool.Copy.{slot_end}

abbrev arena_in : Option TierState → Bytes
arena_in none = λ a. 0
arena_in (some ts) = ts.tier.arena

unfoldable pub arena_of : List TierState → ℕ → Bytes
arena_of tiers t = arena_in (get_elem? tiers t)

-- Byte `i` of the slot at a location.
abbrev pub byte_at : Pool → Location → ℕ → ℕ
byte_at p loc i = arena_of p.tiers loc.tier (loc.slot * block_bytes p.cfg + i)

-- Each block in use has the bytes that it had, wherever it is now.
abbrev pub KeepsBytes : Pool → Pool → Type 0
KeepsBytes p q =
    (id c : ℕ) (loc : Location)
    → get_elem? p.refcount id ≡ some (suc c)
    → get_elem? p.location id ≡ some loc
    → (new : Location) × (get_elem? q.location id ≡ some new)
      × ((i : ℕ) → i < block_bytes p.cfg → byte_at q new i ≡ byte_at p loc i)

pub KeepsBytes-trivial :
    (p q : Pool)
    → q.cfg ≡ p.cfg
    → q.location ≡ p.location
    → ((t : ℕ) → arena_of q.tiers t ≡ arena_of p.tiers t)
    → KeepsBytes p q
KeepsBytes-trivial p q e f g id c loc r l =
    (loc, ap (λ (x : List Location). get_elem? x id) f ∙ l, λ i h. rw (e, g loc.tier))

pub arena_of-set :
    (tiers : List TierState) (t : ℕ) (ts new : TierState) (u : ℕ)
    → get_elem? tiers t ≡ some ts
    → arena_of (set tiers t new) u ≡ (if t == u then new.tier.arena else arena_of tiers u)
unfolding arena_of
arena_of-set tiers t ts new u h =
    ground (arith, get_elem?-set tiers t u new, get_elem?-lt tiers t h)

pub arena_of-some :
    (tiers : List TierState) (t : ℕ) (ts : TierState)
    → get_elem? tiers t ≡ some ts
    → arena_of tiers t ≡ ts.tier.arena
unfolding arena_of
arena_of-some tiers t ts h = rw h

-- A tier whose arena stays leaves all arenas as they are.
pub arena_of-set_same :
    (tiers : List TierState) (t : ℕ) (ts new : TierState) (u : ℕ)
    → get_elem? tiers t ≡ some ts
    → new.tier ≡ ts.tier
    → arena_of (set tiers t new) u ≡ arena_of tiers u
arena_of-set_same tiers t ts new u h e =
    ground (arith, arena_of-set tiers t ts new u h, arena_of-some tiers t ts h)

-- The bytes of two slots do not meet.
apart : (b s k i : ℕ) → s ≢ k → i < b → (s * b + i < k * b) ⊎ (k * b + b ≤ s * b + i)
apart b s k i d h = elim (dec_lt s k) [
  | yes l ↦ inl (omega (arith, slot_end s k b l))
  | no g ↦ inr (omega (arith, slot_end k s b (omega arith)))
]

pub memcpy_apart :
    (b : ℕ) (dst : Bytes) (k : ℕ) (src : Bytes) (from s i : ℕ)
    → s ≢ k
    → i < b
    → memcpy b dst (k * b) src from (s * b + i) ≡ dst (s * b + i)
unfolding memcpy
memcpy_apart b dst k src from s i d h = ground (arith, apart b s k i d h)

pub memcpy_at :
    (b : ℕ) (dst : Bytes) (k : ℕ) (src : Bytes) (from i : ℕ)
    → i < b
    → memcpy b dst (k * b) src from (k * b + i) ≡ src (from + i)
unfolding memcpy
memcpy_at b dst k src from i h =
    let e : k * b + i - k * b ≡ i = omega arith in ground (arith, ap (λ (x : ℕ). src (from + x)) e)

-- A block in use is in no free slot, and in no slot that a job has reserved.
pub used_ne_free :
    {p : Pool} {js : List Job} (v : Storage p js) (id c : ℕ) (loc : Location) (ts : TierState)
    (slot : ℕ) (rest : List ℕ)
    → get_elem? p.refcount id ≡ some (suc c)
    → get_elem? p.location id ≡ some loc
    → get_elem? p.tiers loc.tier ≡ some ts
    → ts.free_slots ≡ slot ∷ rest
    → loc.slot ≢ slot
used_ne_free {p} v id c loc ts slot rest r l h e = ground (
  arith,
  v.slots loc.tier loc.slot,
  free_of-some p.tiers loc.tier ts h loc.slot,
  occupants-le loc.tier loc.slot p.location p.refcount id loc (suc c) l r,
)

pub used_ne_reserved :
    {p : Pool} {js : List Job} (v : Storage p js) (id c : ℕ) (loc : Location) (n : ℕ) (j : Job)
    → get_elem? p.refcount id ≡ some (suc c)
    → get_elem? p.location id ≡ some loc
    → get_elem? js n ≡ some j
    → loc.tier ≡ j.dst_tier
    → loc.slot ≢ j.dst_slot
used_ne_reserved {p} {js} v id c loc n j r l h e = ground (
  arith,
  v.slots loc.tier loc.slot,
  reserved-le loc.tier loc.slot js n j h,
  occupants-le loc.tier loc.slot p.location p.refcount id loc (suc c) l r,
)

-- Under the invariant two different blocks that both have references are never in the same slot.
pub used-exclusive :
    {p : Pool} {js : List Job} (v : Storage p js) (i k c d : ℕ) (a b : Location)
    → i ≢ k
    → get_elem? p.refcount i ≡ some (suc c)
    → get_elem? p.location i ≡ some a
    → get_elem? p.refcount k ≡ some (suc d)
    → get_elem? p.location k ≡ some b
    → a ≢ b
used-exclusive {p} v i k c d a b n r l r' l' e = ground (
  arith,
  v.slots a.tier a.slot,
  occupants_two a.tier a.slot p.location p.refcount i k a b (suc c) (suc d) n l r l' r',
)
