-- ===== src/Manager/System.antt =====
-- A run of CacheManager: its callers acquire, release, drop and ask, and the workers of its pool go on,
-- in any order. The state is the manager with the handles that are out.
pub mod Books
pub mod Steps
pub mod Reachable
use kvslab.Base.{
  ℕ, zero, suc, ◌+◌, ◌-◌, ◌*◌, ◌/◌, ◌%◌, ◌^◌, ◌≤◌, ◌<◌, min, ◌≡◌, refl, sym, ap, ◌∙◌, ◌≢◌, ◌↔◌, ◌⊎◌,
  inl, inr, Bool, true, false, ◌&&◌, ◌||◌, not, Option, none, some, List, [], ◌∷◌, ◌++◌, arith, ltb,
  leb, ◌==◌, if◌then◌else◌, u32, u64, sub32, sub64, Bool-cases, Option-cases, length, get_elem?,
  set, take, drop, replicate, is_empty, count, list_eq, length-append, length-set, get_elem?-lt,
  get_elem?_of_lt, get_elem?-set_self, get_elem?-set_ne, get_elem?-set, get_elem?-append_one,
  take-append-drop, length-take, length-drop, length-replicate, list_eq→eq, list_eq_self, Error,
  bad_alloc, invalid_argument, fatal, assertion, undefined, out_of_fuel, Result, ok, err, ◌>>=◌,
  ◌>>◌, guard, at, for_each, at-some, Returns, Returns-bind, Returns-at, bind-inv, at-inv, ok-inj,
  guard-inv,
}
use kvslab.Pool.Queue.Turns.{Turn, turn, is_busy}
use kvslab.Radix.WellFormed.{stored}
use kvslab.Radix.State.{Tree}
use kvslab.Radix.Pin.Path.{InPlace}
use kvslab.Manager.{Manager, Allocation, destroy, release, ready}
use kvslab.Manager.Acquire.{acquire}
use kvslab.Manager.Serving.{Serving, fresh_blocks}
use kvslab.Pool.Refs.{refs}

pub record System : Type 0 where
  pub manager : Manager
  pub handles : List Allocation

-- A handle is out if its destructor would give something back.
abbrev pub with_handle : Allocation → List Allocation → List Allocation
with_handle a hs = if a.ok && a.owned then a ∷ hs else hs

-- The list with one handle taken out.
pub data Takes (a : Allocation) : List Allocation → List Allocation → Type 0 where
  head : {hs : List Allocation} → Takes a (a ∷ hs) hs
  behind :
      {c : Allocation} {hs rest : List Allocation} → Takes a hs rest → Takes a (c ∷ hs) (c ∷ rest)

-- The blocks of a handle have room in their counts for the references that the tree may take, and
-- their tokens can be counted.
abbrev pub Publishable : Manager → Allocation → Type 0
Publishable m a =
    ((b : ℕ) → 0 < count b a.blocks → refs m.pool b + length a.blocks < 2 ^ 32)
    × (length a.blocks * m.tree.block_tokens < 2 ^ 64)

-- The sizes that the counters of the source have room for.
abbrev pub Countable : System → List ℕ → Type 0
Countable s tokens =
    (length tokens + s.manager.cfg.block_tokens < 2 ^ 64) × (suc (length s.handles) < 2 ^ 32)

-- A call of a caller with a handle that is out, or a turn that a worker can take.
pub data Call (s : System) : Type 0 where
  acquires : (tokens : List ℕ) → Countable s tokens → Call s
  releases :
      (tokens : List ℕ) (a : Allocation) (rest : List Allocation)
      → Takes a s.handles rest
      → Publishable s.manager a
      → Call s
  drops : (a : Allocation) (rest : List Allocation) → Takes a s.handles rest → Call s
  asks : (a : Allocation) (rest : List Allocation) → Takes a s.handles rest → Call s
  works : (x : Turn) → is_busy s.manager.pool x ≡ true → Call s

unfoldable pub run : (s : System) → Call s → Result System
run s (acquires tokens fits) = do
  (a, n) ← acquire s.manager tokens
  ok (record { manager = n; handles = with_handle a s.handles })
run s (releases tokens a rest t fits) = do
  (b, n) ← release s.manager tokens a
  ok (record { manager = n; handles = rest })
run s (drops a rest t) = do n ← destroy s.manager a; ok (record { manager = n; handles = rest })
run s (asks a rest t) = do
  (answer, n) ← ready s.manager a
  ok (record { manager = n; handles = s.handles })
run s (works x busy) = do
  q ← turn s.manager.pool x
  ok (record s { manager = record s.manager { pool = q } })

-- The states that calls and turns lead to.
pub data Reach (start : System) : System → Type 0 where
  at_start : Reach start start
  onward : {s t : System} → Reach start s → (c : Call s) → run s c ≡ ok t → Reach start t

-- What the handles hold: references to blocks, and pins of nodes.
abbrev pub held_by : List Allocation → ℕ → ℕ
held_by [] b = 0
held_by (a ∷ hs) b = held_by hs b + count b (fresh_blocks a)

abbrev pub pin_of : Option ℕ → ℕ → ℕ
pin_of none q = 0
pin_of (some r) q = if q == r then 1 else 0

abbrev pub pins_by : List Allocation → ℕ → ℕ
pins_by [] q = 0
pins_by (a ∷ hs) q = pins_by hs q + pin_of a.pinned q

-- The handle is armed, and its cached front is on the way to the node that it has pinned.
abbrev pub IsOut : Tree → Allocation → Type 0
IsOut t a = (a.ok && a.owned ≡ true) × InPlace a.pinned (take a.cached_blocks a.blocks) t.children

abbrev pub AllOut : Tree → List Allocation → Type 0
AllOut t [] = Unit {0}
AllOut t (a ∷ hs) = IsOut t a × AllOut t hs

-- The invariant of the manager holds with what the handles hold, and no more.
pub record IsSound (s : System) : Type 0 where
  pub serving : Serving (held_by s.handles) (pins_by s.handles) s.manager
  pub out : AllOut s.manager.tree s.handles
  -- A block that a handle has a reference to is no other's, and not cached.
  pub apart :
      (b : ℕ)
      → 0 < held_by s.handles b
      → (held_by s.handles b ≡ 1) × (stored b s.manager.tree.children ≡ 0)
