-- ===== src/Radix/Pin/Hold.antt =====
-- What the pin of a handle keeps: the way to its node, and the blocks on that way.
use kvslab.Base.{
  ℕ, suc, ◌+◌, ◌≤◌, ◌<◌, ◌≡◌, refl, Option, none, some, List, arith, ◌==◌, if◌then◌else◌,
}
use kvslab.Pool.State.{Pool}
use kvslab.Radix.State.{Children, Tree}
use kvslab.Radix.WellFormed.{nodes_at}
use kvslab.Radix.Match.{match_prefix, match_walk}
use kvslab.Radix.Pin.Count.{weight, SameNodes, weight-OneMore}
use kvslab.Radix.Pin.Kept.{match_walk-KeepsPins}
use kvslab.Radix.Pin.Path.{path_count-SameNodes, way, InPlace}
use kvslab.Radix.Pin.Anchor.{SameWay}
use kvslab.Radix.Steady.{Steady, PinOf, unused_pin, match_prefix-Steady}

pub PinOf-more : (o : Option ℕ) (a b : ℕ → ℕ) (q : ℕ) → PinOf o a b → 0 < a q → 0 < b q
PinOf-more none a b q e h = omega (arith, e q, h)
PinOf-more (some r) a b q e h = omega (arith, e q, h)

pub InPlace-kept :
    (o : Option ℕ) (a b : ℕ → ℕ) (bs : List ℕ) (kids after : Children)
    → PinOf o a b
    → ((q : ℕ) → 0 < b q → SameWay q kids after)
    → InPlace o bs kids
    → InPlace o bs after
InPlace-kept none a b bs kids after e ways h = h
InPlace-kept (some q) a b bs kids after e ways h =
    λ k. omega (arith, h k, (ways q (ground (arith, e q))).1 k)

pub way-SameNodes :
    (o : Option ℕ) (b : ℕ) (kids after : Children)
    → SameNodes kids after
    → way o b after ≡ way o b kids
way-SameNodes none b kids after h = refl
way-SameNodes (some q) b kids after h = path_count-SameNodes q b kids after h

-- The pins with one more at the node, if there is one.
abbrev pub with_pin_at : Option ℕ → (ℕ → ℕ) → ℕ → ℕ
with_pin_at none pins = pins
with_pin_at (some q) pins = λ k. pins k + (if k == q then 1 else 0)

pub PinOf-at : (o : Option ℕ) (pins : ℕ → ℕ) → PinOf o pins (with_pin_at o pins)
PinOf-at none pins = λ k. refl
PinOf-at (some q) pins = λ k. refl

-- The pins after `match_prefix` and one more: at most one more in all.
pub weight-with_pin_at :
    {held pins : ℕ → ℕ} {p : Pool} {t : Tree} (s : Steady held pins p t) (ts : List ℕ)
    → let (found, u) = match_prefix t ts in
      weight (with_pin_at found.node pins) u.children ≤ suc (weight pins t.children)
unfolding match_prefix
weight-with_pin_at {pins} {t} s ts =
    let w = match_walk t.block_tokens t.next_ptr t.children ts t.clock in
    let no_pin = unused_pin s t.next_ptr (s.sound.formed.unused t.next_ptr (omega arith)) in
    let (counted, same) =
      match_walk-KeepsPins pins t.block_tokens t.next_ptr no_pin t.children ts t.clock s.counted in
    let formed = (match_prefix-Steady s ts).0.sound.formed in
    by_node w.node w.children same formed.distinct
  where
    by_node :
        (o : Option ℕ) (kids : Children)
        → weight pins kids ≡ weight pins t.children
        → ((q : ℕ) → nodes_at q kids ≤ 1)
        → weight (with_pin_at o pins) kids ≤ suc (weight pins t.children)
    by_node none kids e d = omega (arith, e)
    by_node (some q) kids e d =
        omega (arith, e, d q, weight-OneMore q pins (with_pin_at (some q) pins) (λ k. refl) kids)
