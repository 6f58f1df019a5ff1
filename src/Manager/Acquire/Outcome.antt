-- ===== src/Manager/Acquire/Outcome.antt =====
-- `acquire` as a whole: it serves the request or refuses it, and keeps the invariant.
use kvslab.Radix.WellFormed.{stored}
use kvslab.Radix.WellFormed.Match.{match_prefix-stored}
use kvslab.Radix.Pin.Same.{NoMore, SameNodes-stored}
use kvslab.Base.{
  ℕ, suc, ◌+◌, ◌-◌, ◌*◌, ◌/◌, ◌^◌, ◌≤◌, ◌<◌, ◌≡◌, refl, sym, ap, ◌∙◌, ◌⊎◌, inl, inr, true, not,
  Option, List, [], ◌∷◌, arith, ltb, ◌==◌, if◌then◌else◌, u64, sub64, Bool-cases, length, take,
  count, ◌>>=◌, Returns,
}
use mathlib.Core.Path.{subst}
use kvslab.Pool.{num_free}
use kvslab.Pool.State.{Pool}
use kvslab.Pool.Health.Room.{room, num_away, num_free-room, num_away-Untouched}
use kvslab.Radix.State.{Tree}
use native.Mathlib.Nat.{div-le_self}
use kvslab.Radix.State.{Children}
use kvslab.Radix.Match.{match_prefix}
use kvslab.Radix.Match.Found.{match_prefix-Found}
use kvslab.Radix.Pin.Count.{weight}
use kvslab.Radix.Pin.Locked.{locked, locked-stored}
use kvslab.Radix.Pin.Path.{way, InPlace, match_prefix-InPlace, match_prefix-lock}
use kvslab.Radix.Pin.Hold.{
  PinOf-more, InPlace-kept, way-SameNodes, with_pin_at, PinOf-at, weight-with_pin_at,
}
use kvslab.Radix.Pin.Anchor.{SameWay-trans, SameWay, SameNodes-SameWay, match_prefix-SameWay}
use kvslab.Radix.Steady.{PinOf}
use kvslab.Manager.{Manager, Allocation, no_allocation}
use kvslab.Manager.Serving.{Serving}
use kvslab.Manager.Maintain.{AllUsed}
use kvslab.Manager.Release.{drain-Steady}
use kvslab.Manager.Acquire.{serve, back_out, acquire_matched, acquire}
use kvslab.Manager.Acquire.Room.{Cleared, Cleared-trans, make_room-Cleared, evict_for-Cleared}
use kvslab.Manager.Acquire.Promote.{count_promotion-num_away}
use kvslab.Manager.Acquire.Refusal.{keep_here-Serving, back_out-Kept}
use kvslab.Manager.Acquire.Fresh.{Served, serve-Served}

-- The request is served, or refused with nothing held for it; `kids` is the map that the ways to the
-- pinned nodes are compared with.
abbrev pub Answered : (ℕ → ℕ) → (ℕ → ℕ) → ℕ → Children → Allocation × Manager → Type 0
Answered held pins need kids (a, n) =
    ((Served held pins need a n × InPlace a.pinned (take a.cached_blocks a.blocks) n.tree.children)
      ⊎ ((a ≡ no_allocation) × Serving held pins n))
    × ((q : ℕ) → 0 < pins q → SameWay q kids n.tree.children)
    × NoMore kids n.tree.children

-- Each block of the list is held by a node with a pin.
abbrev AllLocked : Manager → List ℕ → Type 0
AllLocked m bs = (b : ℕ) → count b bs ≤ locked b m.tree.children

used_from :
    {held pins : ℕ → ℕ} {m : Manager} (s : Serving held pins m) (bs : List ℕ)
    → ((b : ℕ) → 0 < count b bs → 0 < locked b m.tree.children)
    → AllUsed m.pool bs
used_from s [] h = tt
used_from {m} s (b ∷ bs) h = (
  omega (arith, h b (ground arith), locked-stored b m.tree.children, s.steady.sound.owned b),
  used_from s bs (λ k some_k. h k (ground arith)),
)

num_away-le : (p : Pool) (bs : List ℕ) → num_away p bs ≤ length bs
num_away-le p [] = omega arith
num_away-le p (b ∷ bs) = ground (arith, num_away-le p bs)

module _ {held pins pinned : ℕ → ℕ} {m : Manager} (s : Serving held pinned m) (tokens : List ℕ)
    (a : Allocation) (need : ℕ) (pin : PinOf a.pinned pins pinned)
    (all_locked : AllLocked m a.blocks) (cached : a.cached_blocks ≡ length a.blocks)
    (placed : InPlace a.pinned a.blocks m.tree.children) (enough : length a.blocks ≤ need)
    (lt : need < 2 ^ 64) where
  -- Once room is made for `demand` slots, as much as it goes.
  decide_room :
      (fresh demand : ℕ) {n : Manager}
      → fresh ≡ need - length a.blocks
      → Cleared held pinned m n
      → fresh + num_away m.pool a.blocks ≡ demand
      → Returns (Answered held pins need m.tree.children) (
          num_free n.pool
          >>= (λ free. if ltb free demand then back_out n a else serve n tokens a fresh))
  decide_room fresh demand {n} f c d =
      let pinned_still : (b : ℕ) → 0 < count b a.blocks → 0 < locked b n.tree.children =
        λ b some_b. omega (arith, all_locked b, c.same b, some_b) in
      let same_away =
        num_away-Untouched m.pool n.pool a.blocks
          (λ b some_b. c.untouched b (omega (arith, all_locked b, some_b))) in
      elim (Bool-cases (ltb (room n.pool) demand)) [
        | inl short ↦
            let (x, e, (t, nothing, same, stats, nodes)) = back_out-Kept c.serving a pin in
            (
              x,
              rw (num_free-room c.serving.healthy) (rw short e),
              (
                inr (nothing, t),
                λ q some_pin.
                    SameWay-trans q m.tree.children n.tree.children x.1.tree.children
                      (c.ways q (PinOf-more a.pinned pins pinned q pin some_pin))
                      (SameNodes-SameWay q n.tree.children x.1.tree.children nodes),
                λ b.
                    omega (
                      arith,
                      c.fewer b,
                      SameNodes-stored b n.tree.children x.1.tree.children nodes,
                    ),
              ),
            )
        | inr fits ↦
            let (x, e, (t, tree, node, front)) =
              serve-Served c.serving tokens a fresh (used_from c.serving a.blocks pinned_still)
                cached pin (ground (arith, same_away, d, fits)) in
            let count_blocks : length a.blocks + fresh ≡ need = omega (arith, f, enough) in
            let kids : x.1.tree.children ≡ n.tree.children = ap (λ (u : Tree). u.children) tree in
            let still : InPlace a.pinned a.blocks n.tree.children =
              InPlace-kept a.pinned pins pinned a.blocks m.tree.children n.tree.children pin c.ways
                placed in
            (
              x,
              rw (num_free-room c.serving.healthy) (rw fits e),
              (
                inl (
                  subst (λ (k : ℕ). Served held pins k x.0 x.1) count_blocks t,
                  λ k. omega (
                    arith,
                    still k,
                    ap (count k) front,
                    ap (λ (o : Option ℕ). way o k n.tree.children) node,
                    ap (way x.0.pinned k) kids,
                  ),
                ),
                λ q some_pin.
                    subst (SameWay q m.tree.children) (sym kids)
                      (c.ways q (PinOf-more a.pinned pins pinned q pin some_pin)),
                λ b. omega (arith, c.fewer b, ap (stored b) kids),
              ),
            )
      ]

acquire_matched-Answered :
    {held pins pinned : ℕ → ℕ} {m : Manager} (s : Serving held pinned m) (tokens : List ℕ)
    (a : Allocation) (need : ℕ)
    → PinOf a.pinned pins pinned
    → AllLocked m a.blocks
    → a.cached_blocks ≡ length a.blocks
    → InPlace a.pinned a.blocks m.tree.children
    → length a.blocks ≤ need
    → need < 2 ^ 64
    → Returns (Answered held pins need m.tree.children) (acquire_matched m tokens a need)
unfolding acquire_matched
acquire_matched-Answered {held} {pins} {pinned} {m} s tokens a need pin all_locked cached placed
      enough lt =
    let (p, e, (s1, tiers, places, others)) = keep_here-Serving s a.blocks in
    let m0 : Manager = record m { pool = p } in
    let used = used_from s1 a.blocks (λ b some_b. omega (arith, all_locked b, some_b)) in
    let fresh = sub64 need a.cached_blocks in
    let exact : fresh ≡ need - length a.blocks = omega (arith, cached, enough, lt) in
    let counted = count_promotion-num_away a.blocks p 0 s1.healthy used in
    let demand = u64 (fresh + (0 + num_away p a.blocks)) in
    let small : fresh + num_away p a.blocks ≡ demand =
      omega (arith, exact, enough, lt, num_away-le p a.blocks) in
    let (m1, f, c1) = make_room-Cleared s1 demand in
    let (m2, g, c2) = evict_for-Cleared c1.serving demand in
    let (x, h, t) =
      decide_room s1 tokens a need pin all_locked cached placed enough lt fresh demand exact
        (Cleared-trans c1 c2) small in
    (x, rw e (rw counted (rw f (rw g h))), t)

-- The blocks that the tokens need, and the matched ones are no more.
blocks_needed : (n k bt : ℕ) → 0 < bt → k * bt ≤ n → n + bt < 2 ^ 64 → k ≤ u64 (n + bt - 1) / bt
blocks_needed n k bt some_tokens le lt =
    let plain : u64 (n + bt - 1) ≡ n + bt - 1 = omega (arith, lt) in rw plain (grind arith)

-- `acquire` of some tokens, with fewer than 2 ^ 32 pins and no overflow in the count of blocks, does not
-- fail. It hands out an armed handle with a table of all the blocks that the tokens need, holding one
-- reference to each block behind the cached ones and one more pin at its node. No other handle and no
-- node of the tree has a reference to such a block. Or else it returns a handle that has nothing.
-- Either way the invariant holds, with the references and pins of the handles that were out before and
-- of this one; and for each node that was pinned before, the way to it has the same blocks, and the
-- tree refers to no block more often.
pub acquire-Answered :
    {held pins : ℕ → ℕ} {m : Manager} (s : Serving held pins m) (token : ℕ) (rest : List ℕ)
    → length (token ∷ rest) + m.cfg.block_tokens < 2 ^ 64
    → suc (weight pins m.tree.children) < 2 ^ 32
    → Returns
        (Answered held pins
          (u64 (length (token ∷ rest) + m.cfg.block_tokens - 1) / m.cfg.block_tokens)
          m.tree.children)
        (acquire m (token ∷ rest))
unfolding acquire
acquire-Answered {held} {pins} {m} s token rest lt few =
    let tokens = token ∷ rest in
    let bt = m.cfg.block_tokens in
    let (p, e, (h, drained, len, refs_same)) = drain-Steady s.healthy s.steady in
    let found = (match_prefix m.tree tokens).0 in
    let matched = (match_prefix m.tree tokens).1 in
    let pinned = with_pin_at found.node pins in
    let (t, f, (steady, kept, all_locked, nodes)) =
      match_prefix-lock drained tokens (PinOf-at found.node pins)
        (omega (arith, weight-with_pin_at drained tokens, few)) in
    let (entries, as_many, le) = match_prefix-Found m.tree tokens s.steady.sound.formed.aligned in
    let positive : 0 < bt = omega (arith, s.same_tokens, s.steady.sound.some_tokens) in
    let whole : length found.blocks * bt ≤ length tokens =
      subst (λ (k : ℕ). length found.blocks * k ≤ length tokens) s.same_tokens
        (omega (arith, as_many, le)) in
    let not_zero : not (bt == 0) ≡ true = ground arith in
    let need = u64 (length tokens + bt - 1) / bt in
    let small : need < 2 ^ 64 = omega (arith, div-le_self (u64 (length tokens + bt - 1)) bt) in
    let a : Allocation = record no_allocation {
      cached_tokens = found.num_tokens;
      cached_blocks = length found.blocks;
      blocks = found.blocks;
      pinned = found.node;
    } in
    let m1 : Manager = record m {
      pool = p;
      tree = t;
      stats = record m.stats { requests = u64 (m.stats.requests + 1) };
    } in
    let s1 : Serving held pinned m1 = record {
      healthy = h;
      steady = steady;
      same_tokens = kept ∙ s.same_tokens;
    } in
    let placed : InPlace found.node found.blocks t.children = λ k. omega (
      arith,
      match_prefix-InPlace m.tree tokens k,
      way-SameNodes found.node k matched.children t.children nodes,
    ) in
    let (x, g, (answer, ways, fewer)) =
      acquire_matched-Answered s1 tokens a need (PinOf-at found.node pins) all_locked refl placed
        (blocks_needed (length tokens) (length found.blocks) bt positive whole lt) small in
    (
      x,
      rw not_zero (rw e (rw f g)),
      (
        answer,
        λ q some_pin.
            SameWay-trans q m.tree.children matched.children x.1.tree.children
              (match_prefix-SameWay s.steady q some_pin tokens)
              (SameWay-trans q matched.children t.children x.1.tree.children
                (SameNodes-SameWay q matched.children t.children nodes) (ways q some_pin)),
        λ b. omega (
          arith,
          fewer b,
          SameNodes-stored b matched.children t.children nodes,
          match_prefix-stored m.tree tokens b,
        ),
      ),
    )
