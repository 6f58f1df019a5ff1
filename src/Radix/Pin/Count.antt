-- ===== src/Radix/Pin/Count.antt =====
-- The pin counts of RadixTree: a node's count is the number of pins at it and below it.
use kvslab.Base.{
  ℕ, ◌+◌, ◌-◌, ◌^◌, ◌≤◌, ◌<◌, ◌≡◌, refl, sym, ap, ◌≢◌, inl, inr, true, false, arith, ltb, ◌==◌,
  if◌then◌else◌, u32, Bool-cases, Result, ok, guard, Returns,
}
use mathlib.Core.Path.{subst}
use kvslab.Radix.State.{Node, Children, end, child}
use kvslab.Radix.WellFormed.{nodes_at}
use kvslab.Radix.Pin.{has, on_path, climb, pin, unpin}

-- `pins p` is how often the node with the address `p` is pinned: all the pins in a map.
unfoldable pub weight : (ℕ → ℕ) → Children → ℕ
weight pins end = 0
weight pins (child key n below rest) = pins n.ptr + (weight pins below + weight pins rest)

abbrev pub Counted : (ℕ → ℕ) → Children → Type 0
Counted pins end = Unit {0}
Counted pins (child key n below rest) =
    (n.lock_count ≡ pins n.ptr + weight pins below) × Counted pins below × Counted pins rest

-- The same nodes, but for their counts and their times.
abbrev pub SameNodes : Children → Children → Type 0
SameNodes end end = Unit {0}
SameNodes end (child key n below rest) = ⊥
SameNodes (child key n below rest) end = ⊥
SameNodes (child key n below rest) (child key2 m below2 rest2) =
    (key2 ≡ key)
    × (m.ptr ≡ n.ptr)
    × (m.tokens ≡ n.tokens)
    × (m.blocks ≡ n.blocks)
    × SameNodes below below2
    × SameNodes rest rest2

pub SameNodes-refl : (kids : Children) → SameNodes kids kids
SameNodes-refl end = tt
SameNodes-refl (child key n below rest) =
    (refl, refl, refl, refl, SameNodes-refl below, SameNodes-refl rest)

weight-SameNodes :
    (pins : ℕ → ℕ) (kids after : Children)
    → SameNodes kids after
    → weight pins after ≡ weight pins kids
unfolding weight
weight-SameNodes pins end end h = refl
weight-SameNodes pins end (child key n below rest) h = absurd h
weight-SameNodes pins (child key n below rest) end h = absurd h
weight-SameNodes pins (child key n below rest) (child key2 m below2 rest2) (e, f, g, i, l, r) =
    omega
      (arith, ap pins f, weight-SameNodes pins below below2 l, weight-SameNodes pins rest rest2 r)

pub has-absent : (p : ℕ) (kids : Children) → nodes_at p kids ≡ 0 → has p kids ≡ false
unfolding has nodes_at
has-absent p end e = refl
has-absent p (child key n below rest) e =
    ground (arith, has-absent p below (ground arith), has-absent p rest (ground arith))

pub has-present : (p : ℕ) (kids : Children) → 0 < nodes_at p kids → has p kids ≡ true
unfolding has nodes_at
has-present p end h = absurd (omega arith)
has-present p (child key n below rest) h = elim (Bool-cases (n.ptr == p)) [
  | inl same ↦ ground arith
  | inr other ↦ elim (Bool-cases (ltb 0 (nodes_at p below))) [
    | inl inside ↦ ground (arith, has-present p below (ground arith))
    | inr outside ↦
        ground (arith, has-present p rest (ground arith), has-absent p below (ground arith))
  ]
]

-- A change of the pins at one node, from `a` to `b`.
module _ (p : ℕ) (a b : ℕ → ℕ) (elsewhere : (k : ℕ) → k ≢ p → a k ≡ b k) where
  weight-absent : (kids : Children) → nodes_at p kids ≡ 0 → weight a kids ≡ weight b kids
  unfolding weight nodes_at
  weight-absent end e = refl
  weight-absent (child key n below rest) e =
      let other : n.ptr ≢ p = λ q. ground arith in
      omega (
        arith,
        elsewhere n.ptr other,
        weight-absent below (ground arith),
        weight-absent rest (ground arith),
      )

  Counted-absent : (kids : Children) → nodes_at p kids ≡ 0 → Counted a kids → Counted b kids
  unfolding nodes_at
  Counted-absent end e h = tt
  Counted-absent (child key n below rest) e (h, l, r) =
      let other : n.ptr ≢ p = λ q. ground arith in
      let none_below : nodes_at p below ≡ 0 = ground arith in
      (
        omega (arith, h, elsewhere n.ptr other, weight-absent below none_below),
        Counted-absent below none_below l,
        Counted-absent rest (ground arith) r,
      )

  -- A loop body that takes the count of each node on the path to what it is to be.
  module _ (body : Node → Result Node) (Shift : ℕ → ℕ → Type 0) (top : ℕ)
      (step : (n : Node) (w : ℕ) → Shift n.lock_count w → body n ≡ ok (record n { lock_count = w }))
      (shifts : (n : Node) (below : Children)
        → (if n.ptr == p then 1 else 0) + nodes_at p below ≡ 1
        → a n.ptr + weight a below ≤ top
        → Shift (a n.ptr + weight a below) (b n.ptr + weight b below)) where
    climb-Counted :
        (kids : Children)
        → nodes_at p kids ≡ 1
        → weight a kids ≤ top
        → Counted a kids
        → Returns (λ q. Counted b q × SameNodes kids q) (climb body p kids)
    unfolding climb on_path nodes_at weight
    climb-Counted end e le h = absurd (omega arith)
    climb-Counted (child key n below rest) e le (h, l, r) =
        let w = b n.ptr + weight b below in
        let m : Node = record n { lock_count = w } in
        elim (Bool-cases (n.ptr == p)) [
          | inl same ↦
              let none_below : nodes_at p below ≡ 0 = ground arith in
              let none_beside : nodes_at p rest ≡ 0 = ground arith in
              let run = step n w (
                subst (λ (x : ℕ). Shift x w) (sym h)
                  (shifts n below (ground arith) (omega (arith, le)))) in
              (
                child key m below rest,
                rw (same, run, climb) refl,
                (
                  (refl, Counted-absent below none_below l, Counted-absent rest none_beside r),
                  (refl, refl, refl, refl, SameNodes-refl below, SameNodes-refl rest),
                ),
              )
          | inr other ↦ elim (Bool-cases (ltb 0 (nodes_at p below))) [
            | inl inside ↦
                let once : nodes_at p below ≡ 1 = ground arith in
                let none_beside : nodes_at p rest ≡ 0 = ground arith in
                let there = has-present p below (omega arith) in
                let run = step n w (
                  subst (λ (x : ℕ). Shift x w) (sym h)
                    (shifts n below (ground arith) (omega (arith, le)))) in
                let (q, f, (k, s)) = climb-Counted below once (omega (arith, le)) l in
                let as_counted : w ≡ b n.ptr + weight b q =
                  omega (arith, weight-SameNodes b below q s) in
                (
                  child key m q rest,
                  rw (other, there, f, run) refl,
                  (
                    (as_counted, k, Counted-absent rest none_beside r),
                    (refl, refl, refl, refl, s, SameNodes-refl rest),
                  ),
                )
            | inr outside ↦
                let none_below : nodes_at p below ≡ 0 = ground arith in
                let away = has-absent p below none_below in
                let (q, f, (k, s)) = climb-Counted rest (ground arith) (omega (arith, le)) r in
                let ne : n.ptr ≢ p = λ y. ground arith in
                let as_counted : n.lock_count ≡ b n.ptr + weight b below =
                  omega (arith, h, elsewhere n.ptr ne, weight-absent below none_below) in
                (
                  child key n below q,
                  rw (other, away, f) refl,
                  (
                    (as_counted, Counted-absent below none_below l, k),
                    (refl, refl, refl, refl, SameNodes-refl below, s),
                  ),
                )
          ]
        ]

-- All the pins, with one more at `p`.
abbrev pub OneMore : ℕ → (ℕ → ℕ) → (ℕ → ℕ) → Type 0
OneMore p a b = (k : ℕ) → b k ≡ a k + (if k == p then 1 else 0)

module _ (p : ℕ) (a b : ℕ → ℕ) (more : OneMore p a b) where
  pub weight-OneMore : (kids : Children) → weight b kids ≡ weight a kids + nodes_at p kids
  unfolding weight nodes_at
  weight-OneMore end = refl
  weight-OneMore (child key n below rest) =
      omega (arith, more n.ptr, weight-OneMore below, weight-OneMore rest)

  -- `lock` counts the new pin, and `unlock` takes it off.
  pub pin-Counted :
      (kids : Children)
      → nodes_at p kids ≡ 1
      → weight b kids < 2 ^ 32
      → Counted a kids
      → Returns (λ q. Counted b q × SameNodes kids q) (climb pin p kids)
  unfolding pin
  pin-Counted kids once fit h =
      climb-Counted p a b (λ k ne. ground (arith, more k)) pin (λ x w. (w ≡ x + 1) × (w < 2 ^ 32))
        (weight a kids)
        (λ n w (e, lt).
          let exact : u32 (n.lock_count + 1) ≡ w = omega arith in
          ap (λ (x : ℕ). ok (record n { lock_count = x })) exact)
        (λ n below one le. (
          omega (arith, more n.ptr, weight-OneMore below, one),
          omega (arith, more n.ptr, weight-OneMore below, one, weight-OneMore kids),
        ))
        kids once (omega arith) h

  pub unpin-Counted :
      (kids : Children)
      → nodes_at p kids ≡ 1
      → Counted b kids
      → Returns (λ q. Counted a q × SameNodes kids q) (climb unpin p kids)
  unfolding unpin
  unpin-Counted kids once h =
      climb-Counted p b a (λ k ne. ground (arith, more k)) unpin (λ x w. x ≡ w + 1) (weight b kids)
        (λ n w e.
          let some_pin : ltb 0 n.lock_count ≡ true = ground arith in
          let exact : n.lock_count - 1 ≡ w = omega arith in
          rw (some_pin, guard) (ap (λ (x : ℕ). ok (record n { lock_count = x })) exact))
        (λ n below one le. omega (arith, more n.ptr, weight-OneMore below, one)) kids once
        (omega arith) h
