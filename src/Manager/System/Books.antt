-- ===== src/Manager/System/Books.antt =====
-- What the handles hold, one by one.
use kvslab.Manager.Serving.{fresh_blocks}
use kvslab.Base.{
  ℕ, zero, suc, ◌+◌, ◌-◌, ◌^◌, ◌≤◌, ◌<◌, ◌≡◌, refl, ap, Option, none, some, List, [], ◌∷◌, arith,
  length, get_elem?, take, drop, count,
}
use mathlib.Core.Path.{fun_ext}
use kvslab.Pool.Refs.{refs, refs-some}
use kvslab.Radix.State.{Tree, Children, end, child}
use kvslab.Radix.Insert.Adopt.{Held}
use kvslab.Radix.Pin.Count.{weight, weight-OneMore}
use kvslab.Radix.WellFormed.{nodes_at, stored}
use kvslab.Radix.Pin.Locked.{locked-stored}
use kvslab.Radix.Pin.Path.{InPlace, way, Counted-locked}
use kvslab.Radix.Pin.Anchor.{SameWay}
use kvslab.Radix.Steady.{PinOf}
use kvslab.Manager.{Allocation}
use kvslab.Manager.Serving.{HeldWith}
use kvslab.Manager.Maintain.{AllUsed}
use kvslab.Manager.System.{
  System, Takes, head, behind, held_by, pin_of, pins_by, IsOut, AllOut, IsSound, Publishable,
}

-- A handle that is taken out takes what it holds with it.
pub Takes-held :
    {a : Allocation} {hs rest : List Allocation}
    → Takes a hs rest
    → HeldWith a (held_by rest) (held_by hs)
Takes-held head b = refl
Takes-held (behind t) b = omega (arith, Takes-held t b)

pins-more :
    {a : Allocation} {hs rest : List Allocation}
    → Takes a hs rest
    → (q : ℕ) → pins_by hs q ≡ pins_by rest q + pin_of a.pinned q
pins-more head q = refl
pins-more (behind t) q = omega (arith, pins-more t q)

PinOf-from : (o : Option ℕ) (a b : ℕ → ℕ) → ((q : ℕ) → b q ≡ a q + pin_of o q) → PinOf o a b
PinOf-from none a b e = λ q. omega (arith, e q)
PinOf-from (some r) a b e = e

pub Takes-pins :
    {a : Allocation} {hs rest : List Allocation}
    → Takes a hs rest
    → PinOf a.pinned (pins_by rest) (pins_by hs)
Takes-pins {a} {hs} {rest} t = PinOf-from a.pinned (pins_by rest) (pins_by hs) (pins-more t)

-- A handle's own pin is one of those that are out.
pub pinned_node :
    {a : Allocation} {hs rest : List Allocation}
    → Takes a hs rest
    → (q : ℕ) → a.pinned ≡ some q
    → 0 < pins_by hs q
pinned_node {a} t q e = ground (arith, pins-more t q, ap (λ (o : Option ℕ). pin_of o q) e)

pub InPlace-ways :
    (o : Option ℕ) (bs : List ℕ) (kids after : Children)
    → ((q : ℕ) → o ≡ some q → SameWay q kids after)
    → InPlace o bs kids
    → InPlace o bs after
InPlace-ways none bs kids after ways h = h
InPlace-ways (some q) bs kids after ways h = λ k. omega (arith, h k, (ways q refl).1 k)

-- The handles stay out as long as the ways to the nodes that they pin stay.
pub AllOut-ways :
    (t u : Tree) (hs : List Allocation)
    → ((q : ℕ) → 0 < pins_by hs q → SameWay q t.children u.children)
    → AllOut t hs
    → AllOut u hs
AllOut-ways t u [] ways h = tt
AllOut-ways t u (a ∷ hs) ways ((live, placed), rest) = (
  (
    live,
    InPlace-ways a.pinned (take a.cached_blocks a.blocks) t.children u.children
        (λ q e. ways q (pinned_node {a = a} {hs = a ∷ hs} head q e)) placed,
  ),
  AllOut-ways t u hs (λ q some_pin. ways q (omega (arith, some_pin))) rest,
)

pub AllOut-Takes :
    {a : Allocation} {hs rest : List Allocation} (t : Tree)
    → Takes a hs rest
    → AllOut t hs
    → IsOut t a × AllOut t rest
AllOut-Takes t head h = h
AllOut-Takes t (behind m) (out, rest) =
    let (one, others) = AllOut-Takes t m rest in (one, (out, others))

pub fewer_pins :
    {a : Allocation} {hs rest : List Allocation}
    → Takes a hs rest
    → (q : ℕ) → 0 < pins_by rest q
    → 0 < pins_by hs q
fewer_pins t q some_pin = omega (arith, pins-more t q, some_pin)

weight-same :
    (a b : ℕ → ℕ) (kids : Children) → ((q : ℕ) → a q ≡ b q) → weight a kids ≡ weight b kids
weight-same a b kids e = ap (λ (f : ℕ → ℕ). weight f kids) (fun_ext e)

weight-none : (kids : Children) → weight (pins_by []) kids ≡ 0
unfolding weight
weight-none end = refl
weight-none (child key n below rest) = omega (arith, weight-none below, weight-none rest)

weight-more :
    (pins : ℕ → ℕ) (kids : Children)
    → ((q : ℕ) → nodes_at q kids ≤ 1)
    → (o : Option ℕ) → weight (λ q. pins q + pin_of o q) kids ≤ suc (weight pins kids)
weight-more pins kids once none =
    omega (arith, weight-same (λ q. pins q + pin_of none q) pins kids (λ q. omega arith))
weight-more pins kids once (some r) =
    omega (arith, weight-OneMore r pins (λ q. pins q + pin_of (some r) q) (λ q. refl) kids, once r)

-- All pins of a tree in which each node stands once are at most the handles.
pub weight-pins_by :
    (kids : Children)
    → ((q : ℕ) → nodes_at q kids ≤ 1)
    → (hs : List Allocation) → weight (pins_by hs) kids ≤ length hs
weight-pins_by kids once [] = omega (arith, weight-none kids)
weight-pins_by kids once (a ∷ hs) =
    omega (arith, weight-more (pins_by hs) kids once a.pinned, weight-pins_by kids once hs)

front_and_rest : (bs : List ℕ) (k b : ℕ) → count b bs ≡ count b (take k bs) + count b (drop k bs)
front_and_rest bs zero b = omega arith
front_and_rest [] (suc k) b = refl
front_and_rest (c ∷ bs) (suc k) b = omega (arith, front_and_rest bs k b)

pub fresh-count : (a : Allocation) (b : ℕ) → count b (fresh_blocks a) ≤ count b a.blocks
fresh-count a b = omega (arith, front_and_rest a.blocks a.cached_blocks b)

module _ {s : System} (sound : IsSound s) where
  way-stored :
      (o : Option ℕ) (b : ℕ)
      → ((q : ℕ) → o ≡ some q → 0 < pins_by s.handles q)
      → way o b s.manager.tree.children ≤ stored b s.manager.tree.children
  way-stored none b pinned = omega arith
  way-stored (some q) b pinned = omega (
    arith,
    Counted-locked (pins_by s.handles) q b s.manager.tree.children sound.serving.steady.counted
        (pinned q refl),
    locked-stored b s.manager.tree.children,
  )

  -- The cached front of a handle is the tree's.
  pub count-stored :
      {a : Allocation} {rest : List Allocation}
      → Takes a s.handles rest
      → (b : ℕ) → count b a.blocks ≤ stored b s.manager.tree.children + count b (fresh_blocks a)
  count-stored {a} t b =
      let ((live, placed), others) = AllOut-Takes s.manager.tree t sound.out in
      omega (
        arith,
        front_and_rest a.blocks a.cached_blocks b,
        placed b,
        way-stored a.pinned b (pinned_node t),
      )

  -- The blocks of a handle that is out are in use.
  pub in_use :
      {a : Allocation} {rest : List Allocation}
      → Takes a s.handles rest
      → (b : ℕ) → 0 < count b a.blocks
      → 0 < refs s.manager.pool b
  in_use t b some_b =
      omega (arith, some_b, count-stored t b, Takes-held t b, sound.serving.steady.sound.owned b)

  all_in_use :
      (bs : List ℕ)
      → ((b : ℕ) → 0 < count b bs → 0 < refs s.manager.pool b)
      → AllUsed s.manager.pool bs
  all_in_use [] h = tt
  all_in_use (b ∷ bs) h = (h b (ground arith), all_in_use bs (λ k some_k. h k (ground arith)))

  pub Takes-AllUsed :
      {a : Allocation} {rest : List Allocation}
      → Takes a s.handles rest
      → AllUsed s.manager.pool a.blocks
  Takes-AllUsed {a} t = all_in_use a.blocks (in_use t)

  all-Held :
      (room : ℕ) (bs : List ℕ)
      → ((b : ℕ) → 0 < count b bs → 0 < refs s.manager.pool b)
      → ((b : ℕ) → 0 < count b bs → refs s.manager.pool b + room < 2 ^ 32)
      → Held room s.manager.pool bs
  all-Held room [] h k = tt
  all-Held room (b ∷ bs) h k =
      let some_ref = h b (ground arith) in
      let few = k b (ground arith) in
      (
        (
          refs s.manager.pool b - 1,
          refs-some (get_elem? s.manager.pool.refcount b) (refs s.manager.pool b - 1) (omega arith),
          omega arith,
        ),
        all-Held room bs (λ c some_c. h c (ground arith)) (λ c some_c. k c (ground arith)),
      )

  pub Takes-Held :
      {a : Allocation} {rest : List Allocation}
      → Takes a s.handles rest
      → Publishable s.manager a
      → Held (length a.blocks) s.manager.pool a.blocks
  Takes-Held {a} t (few, lt) = all-Held (length a.blocks) a.blocks (in_use t) few
