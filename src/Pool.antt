-- ===== src/Pool.antt =====
-- BlockPool (src/block_pool.cpp): the operations that finish on the calling thread. The state is in
-- Pool/State.antt, the constructors in Pool/Setup.antt, the migration queue in Pool/Queue.antt.
pub mod State
pub mod Setup
pub mod Queue
pub mod Slots
pub mod Free
pub mod Inv
pub mod Basic
pub mod Cancel
pub mod Release
pub mod Copy
pub mod Move
pub mod Migrate
pub mod Content
pub mod Refs
pub mod Health
use kvslab.Base.{
  ℕ, zero, suc, ◌+◌, ◌-◌, ◌*◌, ◌/◌, ◌%◌, ◌^◌, ◌≤◌, ◌<◌, min, ◌≡◌, refl, sym, ap, ◌∙◌, ◌≢◌, ◌↔◌, ◌⊎◌,
  inl, inr, Bool, true, false, ◌&&◌, ◌||◌, not, Option, none, some, List, [], ◌∷◌, ◌++◌, arith, ltb,
  leb, ◌==◌, if◌then◌else◌, u32, u64, sub32, sub64, Bool-cases, Option-cases, length, get_elem?,
  set, take, drop, replicate, is_empty, count, list_eq, length-append, length-set, get_elem?-lt,
  get_elem?_of_lt, get_elem?-set_self, get_elem?-set_ne, get_elem?-set, get_elem?-append_one,
  take-append-drop, length-take, length-drop, length-replicate, list_eq→eq, list_eq_self, Error,
  bad_alloc, invalid_argument, fatal, assertion, undefined, Result, ok, err, ◌>>=◌, ◌>>◌, guard, at,
  for_each, at-some, Returns, Returns-bind, Returns-at,
}
use kvslab.Types.{CacheConfig, block_bytes, total_bytes, invalid_block}
use kvslab.Tier.{Tier, Bytes, memcpy, read, write, host_tier}
use State.{Location, TierState, Job, Pool, find, erase, is_some, set_cancelled, put_free}

unfoldable pub migrating? : Pool → ℕ → Bool
unfolding find is_some
migrating? p id = is_some (find id p.migrating)

unfoldable pub locate : Pool → ℕ → Result Location
locate p id = do
  guard (ltb id (length p.location)) fatal
  count ← at p.refcount id
  guard (not (count == 0)) fatal
  at p.location id

unfoldable pub refcount_of : Pool → ℕ → Result ℕ
refcount_of p id = do guard (ltb id (length p.location)) fatal; at p.refcount id

unfoldable pub block_tier : Pool → ℕ → Result ℕ
unfolding locate
block_tier p id = do loc ← locate p id; ok loc.tier

pub block_offset : Pool → ℕ → Result ℕ
unfolding locate
block_offset p id = do loc ← locate p id; ok (u64 (loc.slot * block_bytes p.cfg))

-- A pointer into a tier's arena: the tier and the offset; nothing for a tier that has no address.
pub block_data : Pool → ℕ → Result (Option (ℕ × ℕ))
unfolding locate
block_data p id = do
  loc ← locate p id
  ts ← at p.tiers loc.tier
  ok (if ts.tier.addressable then some (loc.tier, u64 (loc.slot * block_bytes p.cfg)) else none)

pub num_used : Pool → ℕ
num_used p = sub64 (length p.location) (length p.free_ids)

unfoldable pub num_free : Pool → Result ℕ
num_free p = do t ← at p.tiers 0; ok (length t.free_slots)

-- The bindings that `allocate` makes: block `id` gets the slot, and one reference.
unfoldable pub grant : Pool → ℕ → List ℕ → TierState → ℕ → List ℕ → Pool
grant p id ids ts slot rest = record p {
  tiers = put_free p.tiers 0 ts rest;
  location = set p.location id (record { tier = 0; slot = slot });
  refcount = set p.refcount id 1;
  free_ids = ids;
}

-- The rest of `allocate` once an id is free and the compute tier is at hand.
unfoldable pub allocate_in : Pool → ℕ → List ℕ → TierState → Result (ℕ × Pool)
unfolding grant
allocate_in p id ids ts = elim ts.free_slots [
  | [] ↦ ok (invalid_block, p)
  | slot ∷ rest ↦ do
    count ← at p.refcount id
    guard (count == 0) assertion
    guard (ltb id (length p.location)) undefined
    ok (id, grant p id ids ts slot rest)
]

unfoldable pub allocate : Pool → Result (ℕ × Pool)
unfolding allocate_in
allocate p = elim p.free_ids [
  | [] ↦ ok (invalid_block, p)
  | id ∷ ids ↦ do ts ← at p.tiers 0; allocate_in p id ids ts
]

unfoldable pub incref : Pool → ℕ → Result Pool
incref p id = do
  guard (ltb id (length p.location)) fatal
  count ← at p.refcount id
  guard (not (count == 0)) fatal
  ok (record p { refcount = set p.refcount id (u32 (count + 1)) })

unfoldable pub cancel_migration : Pool → ℕ → Pool
unfolding find erase set_cancelled
cancel_migration p id = elim (find id p.migrating) [
  | none ↦ p
  | some r ↦ record p { jobs = set_cancelled r p.jobs; migrating = erase id p.migrating }
]

-- The block, its count already 0, goes back on the free lists.
unfoldable pub give_back : Pool → ℕ → Location → TierState → Pool
give_back p id loc ts = record p {
  tiers = put_free p.tiers loc.tier ts (loc.slot ∷ ts.free_slots);
  free_ids = id ∷ p.free_ids;
}

unfoldable pub free_block : Pool → ℕ → Result Pool
unfolding give_back
free_block p id = do loc ← at p.location id; ts ← at p.tiers loc.tier; ok (give_back p id loc ts)

unfoldable pub last_ref : Pool → ℕ → Result (Bool × Pool)
unfolding cancel_migration free_block
last_ref p id = do q ← free_block (cancel_migration p id) id; ok (true, q)

unfoldable pub decref : Pool → ℕ → Result (Bool × Pool)
unfolding last_ref
decref p id = do
  guard (ltb id (length p.location)) fatal
  count ← at p.refcount id
  guard (not (count == 0)) fatal
  let less = record p { refcount = set p.refcount id (count - 1) }
  if count - 1 == 0 then last_ref less id else ok (false, less)

-- The bytes of one block, from slot to slot: the bounce buffer and the destination after the copy.
unfoldable pub copy_block : Pool → Tier → ℕ → Tier → ℕ → Result (Bytes × Tier)
unfolding read write
copy_block p src src_slot dst dst_slot =
    let bytes = block_bytes p.cfg in
    let src_off = u64 (src_slot * bytes) in
    let dst_off = u64 (dst_slot * bytes) in
    if src.addressable && dst.addressable
    then ok (p.bounce, record dst { arena = memcpy bytes dst.arena dst_off src.arena src_off })
    else (do
      bounce ← read src src_off p.bounce bytes
      t ← write dst dst_off bounce bytes
      ok (bounce, t))

-- The old slot goes back, and the block is bound to the new one; `dst_state` is the destination
-- tier, the slot taken and the bytes copied.
unfoldable pub rebind : Pool → ℕ → ℕ → Location → TierState → ℕ → TierState → Bytes → Pool
rebind p id dst loc dst_state slot src_state bounce = record p {
  tiers = put_free (set p.tiers dst dst_state) loc.tier src_state (loc.slot ∷ src_state.free_slots);
  location = set p.location id (record { tier = dst; slot = slot });
  bounce = bounce;
}

-- The rest of `migrate` once the destination has a slot.
unfoldable pub move_block : Pool → ℕ → ℕ → Location → TierState → ℕ → List ℕ → Result (Bool × Pool)
unfolding copy_block rebind
move_block p id dst loc dst_state slot rest = do
  src_state ← at p.tiers loc.tier
  (bounce, t) ← copy_block p src_state.tier loc.slot dst_state.tier slot
  ok (
    true,
    rebind p id dst loc (record dst_state { tier = t; free_slots = rest }) slot src_state bounce,
  )

unfoldable pub move_located : Pool → ℕ → ℕ → Location → Result (Bool × Pool)
unfolding move_block
move_located p id dst loc = if loc.tier == dst then ok (true, p) else (do
  dst_state ← at p.tiers dst
  elim dst_state.free_slots [
    | [] ↦ ok (false, p)
    | slot ∷ rest ↦ move_block p id dst loc dst_state slot rest
  ])

unfoldable pub migrate : Pool → ℕ → ℕ → Result (Bool × Pool)
unfolding cancel_migration locate move_located
migrate p id dst = do
  let q = cancel_migration p id
  loc ← locate q id
  guard (ltb dst (length q.tiers)) fatal
  move_located q id dst loc

-- `pool_.decref(id);`, whose answer is not looked at.
unfoldable pub drop_ref : Pool → ℕ → Result Pool
drop_ref p b = do (freed, q) ← decref p b; ok q
