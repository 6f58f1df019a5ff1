-- ===== src/Manager/System/Steps.antt =====
-- Each step keeps the invariant with what the handles hold.
use kvslab.Radix.WellFormed.{stored}
use kvslab.Base.{
  ℕ, ◌+◌, ◌≤◌, ◌<◌, ◌≡◌, refl, sym, ap, inl, inr, true, ◌&&◌, Option, none, some, List, [], ◌∷◌,
  arith, ltb, Bool-cases, get_elem?, count, Returns,
}
use mathlib.Core.Path.{subst, fun_ext}
use kvslab.Pool.Queue.Turns.{Turn, turn, is_busy}
use kvslab.Pool.Health.Turns.{turn-Went}
use kvslab.Pool.Refs.{or_zero}
use kvslab.Radix.Pin.Anchor.{SameWays}
use kvslab.Radix.Steady.{PinOf}
use kvslab.Radix.State.{Tree}
use kvslab.Manager.{Manager, Allocation, destroy, release, ready}
use kvslab.Manager.Acquire.{acquire}
use kvslab.Manager.Acquire.Outcome.{Answered, acquire-Answered}
use kvslab.Manager.Serving.{Serving, fresh_blocks}
use kvslab.Manager.Handle.{Holds, destroy-Serving}
use kvslab.Manager.Maintain.{SameRefs, Steady-same}
use kvslab.Manager.Release.{release-Serving}
use kvslab.Manager.Start.{ready-Serving}
use kvslab.Manager.System.{
  System, with_handle, Takes, Countable, Publishable, Call, run, acquires, releases, drops, asks,
  works, held_by, pin_of, pins_by, AllOut, IsSound,
}
use kvslab.Manager.System.Books.{
  Takes-held, Takes-pins, AllOut-ways, AllOut-Takes, weight-pins_by, Takes-AllUsed, Takes-Held,
  count-stored,
}

PinOf-at : (o : Option ℕ) (a b : ℕ → ℕ) → PinOf o a b → (q : ℕ) → b q ≡ a q + pin_of o q
PinOf-at none a b e q = omega (arith, e q)
PinOf-at (some r) a b e q = e q

-- What `acquire` returns is a step of the books.
Answered-Sound :
    {s : System} (sound : IsSound s) (need : ℕ) (a : Allocation) (n : Manager)
    → Answered (held_by s.handles) (pins_by s.handles) need s.manager.tree.children (a, n)
    → IsSound (record { manager = n; handles = with_handle a s.handles })
Answered-Sound {s} sound need a n (outcome, ways, fewer) = elim outcome [
  | inr (nothing, t) ↦
      let same : with_handle a s.handles ≡ s.handles =
        ap (λ (x : Allocation). with_handle x s.handles) nothing in
      subst (λ (hs : List Allocation). IsSound (record { manager = n; handles = hs })) (sym same)
        (record {
          serving = t;
          out = others;
          apart = λ b some_b.
              let (one, uncached) = sound.apart b some_b in (one, omega (arith, uncached, fewer b));
        })
  | inl (t, placed) ↦
      let live : a.ok && a.owned ≡ true = ground (arith, t.is_ok, t.armed) in
      let held : t.all ≡ held_by (a ∷ s.handles) = fun_ext t.with_fresh in
      let pins : t.pinned ≡ pins_by (a ∷ s.handles) =
        fun_ext (PinOf-at a.pinned (pins_by s.handles) t.pinned t.with_pin) in
      let same : with_handle a s.handles ≡ a ∷ s.handles = rw live refl in
      subst (λ (hs : List Allocation). IsSound (record { manager = n; handles = hs })) (sym same)
        (record {
          serving =
              subst (λ (f : ℕ → ℕ). Serving f (pins_by (a ∷ s.handles)) n) held
                (subst (λ (f : ℕ → ℕ). Serving t.all f n) pins t.serving);
          out = ((live, placed), others);
          apart = λ b some_b. elim (Bool-cases (ltb 0 (count b (fresh_blocks a)))) [
            | inl new ↦
                let (no_other, one, uncached) = t.alone b (ground arith) in
                (omega (arith, no_other, one), uncached)
            | inr old ↦
                let (one, uncached) = sound.apart b (ground (arith, some_b)) in
                (ground (arith, one), omega (arith, uncached, fewer b))
          ];
        })
]
  where
    others : AllOut n.tree s.handles
    others = AllOut-ways s.manager.tree n.tree s.handles ways sound.out

-- `acquire` returns in a sound system, and leaves it sound.
pub acquire-Sound :
    {s : System} (sound : IsSound s) (tokens : List ℕ)
    → Countable s tokens
    → Returns
        (λ (a, n). IsSound (record { manager = n; handles = with_handle a s.handles }))
        (acquire s.manager tokens)
unfolding acquire
acquire-Sound {s} sound [] (lt, few) = (
  _,
  refl,
  record {
    serving = record {
      healthy = sound.serving.healthy;
      steady = sound.serving.steady;
      same_tokens = sound.serving.same_tokens;
    };
    out = sound.out;
    apart = sound.apart;
  },
)
acquire-Sound {s} sound (token ∷ rest) (lt, few) =
    let once = sound.serving.steady.sound.formed.distinct in
    let le = weight-pins_by s.manager.tree.children once s.handles in
    let ((a, n), e, k) = acquire-Answered sound.serving token rest lt (omega (arith, le, few)) in
    ((a, n), e, Answered-Sound sound _ a n k)

module _ {s : System} (sound : IsSound s) {a : Allocation} {rest : List Allocation}
    (t : Takes a s.handles rest) where
  -- The others stay out once this one has gone.
  others_out : (n : Manager) → SameWays (pins_by rest) s.manager.tree n.tree → AllOut n.tree rest
  others_out n ways =
      AllOut-ways s.manager.tree n.tree rest ways (AllOut-Takes s.manager.tree t sound.out).1

  -- What the others hold is theirs alone, and not in this one's table.
  others_apart :
      (n : Manager)
      → ((b : ℕ)
          → count b a.blocks ≡ 0
          → stored b n.tree.children ≤ stored b s.manager.tree.children)
      → (b : ℕ) → 0 < held_by rest b
      → (held_by rest b ≡ 1) × (stored b n.tree.children ≡ 0)
  others_apart n fewer b some_b =
      let (one, uncached) = sound.apart b (omega (arith, some_b, Takes-held t b)) in
      let held = Takes-held t b in
      (
        omega (arith, one, held, some_b),
        omega (
          arith,
          uncached,
          fewer b (omega (arith, one, held, some_b, uncached, count-stored sound t b)),
        ),
      )

  live_one : a.ok && a.owned ≡ true
  live_one = (AllOut-Takes s.manager.tree t sound.out).0.0

  -- `release` of a handle that is out returns, and takes it out of the books.
  pub release-Sound :
      (tokens : List ℕ)
      → Publishable s.manager a
      → Returns
          (λ (b, n). IsSound (record { manager = n; handles = rest }))
          (release s.manager tokens a)
  release-Sound tokens few =
      let is_ok : a.ok ≡ true = ground (arith, live_one) in
      let ((b, n), e, (k, gone, ways, fewer)) =
        release-Serving sound.serving tokens a is_ok (Takes-held t) (Takes-pins t) few.1
          (Takes-Held sound t few) in
      ((b, n), e, record { serving = k; out = others_out n ways; apart = others_apart n fewer })

  -- So does its destructor.
  pub destroy-Sound :
      Returns (λ n. IsSound (record { manager = n; handles = rest })) (destroy s.manager a)
  destroy-Sound =
      let holds : Holds a (held_by rest) (held_by s.handles) (pins_by rest) (pins_by s.handles) =
        rw live_one (Takes-held t, Takes-pins t) in
      let (n, e, (k, ways, fewer)) = destroy-Serving sound.serving a holds in
      (
        n,
        e,
        record { serving = k; out = others_out n ways; apart = others_apart n (λ b no_b. fewer b) },
      )

  -- `ready` returns, and all handles stay out.
  pub ready-Sound :
      Returns
        (λ (answer, n). IsSound (record { manager = n; handles = s.handles }))
        (ready s.manager a)
  ready-Sound =
      let ((answer, n), e, (k, tree, landed)) =
        ready-Serving sound.serving a live_one (Takes-AllUsed sound t) in
      (
        (answer, n),
        e,
        record {
          serving = k;
          out = subst (λ (u : Tree). AllOut u s.handles) (sym tree) sound.out;
          apart = λ b some_b.
              let (one, uncached) = sound.apart b some_b in
              (one, omega (arith, uncached, ap (λ (u : Tree). stored b u.children) tree));
        },
      )

-- A turn of a worker does not fail, and leaves the system sound.
pub turn-Sound :
    {s : System} (sound : IsSound s) (x : Turn)
    → is_busy s.manager.pool x ≡ true
    → Returns
        (λ q. IsSound (record s { manager = record s.manager { pool = q } }))
        (turn s.manager.pool x)
turn-Sound {s} sound x busy =
    let (q, e, (h, same, less)) = turn-Went sound.serving.healthy x busy in
    let refs_same : SameRefs s.manager.pool q =
      λ b. ap (λ (rs : List ℕ). or_zero (get_elem? rs b)) same.refcount in
    (
      q,
      e,
      record {
        serving = record {
          healthy = h;
          steady = Steady-same sound.serving.steady q h.inv refs_same;
          same_tokens = sound.serving.same_tokens;
        };
        out = sound.out;
        apart = sound.apart;
      },
    )

-- No call fails in a sound system, and each leaves it sound.
pub run-Sound : {s : System} (sound : IsSound s) (c : Call s) → Returns IsSound (run s c)
unfolding run
run-Sound sound (acquires tokens fits) =
    let (x, e, k) = acquire-Sound sound tokens fits in (_, rw e refl, k)
run-Sound sound (releases tokens a rest t fits) =
    let (x, e, k) = release-Sound sound t tokens fits in (_, rw e refl, k)
run-Sound sound (drops a rest t) = let (n, e, k) = destroy-Sound sound t in (_, rw e refl, k)
run-Sound sound (asks a rest t) = let (x, e, k) = ready-Sound sound t in (_, rw e refl, k)
run-Sound sound (works x busy) = let (q, e, k) = turn-Sound sound x busy in (_, rw e refl, k)
