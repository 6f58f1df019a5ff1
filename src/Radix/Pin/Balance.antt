-- ===== src/Radix/Pin/Balance.antt =====
-- `unlock` undoes `lock`.
use kvslab.Base.{
  ℕ, ◌+◌, ◌-◌, ◌^◌, ◌<◌, ◌≡◌, refl, ap, inl, inr, true, false, some, List, [], ◌++◌, arith, ltb,
  ◌==◌, u32, Bool-cases, ok, guard, Returns,
}
use kvslab.Radix.State.{Node, Children, end, child, Tree}
use kvslab.Radix.Entries.{entries}
use kvslab.Radix.Pin.{has, on_path, climb, pin, unpin, walk_up, lock, unlock}

-- No pin count is at the top of its 32 bits.
abbrev pub CountsFit : Children → Type 0
CountsFit end = Unit {0}
CountsFit (child key n below rest) = (n.lock_count + 1 < 2 ^ 32) × CountsFit below × CountsFit rest

abbrev pinned : Node → Node
pinned n = record n { lock_count = u32 (n.lock_count + 1) }

-- A map that the loop of `lock` leaves, from `kids`.
abbrev pub Pinned : ℕ → ℕ → Children → Children → Type 0
Pinned bt p kids q =
    (climb unpin p q ≡ ok kids)
    × (has p q ≡ has p kids)
    × ((path : List ℕ) → entries bt path q ≡ entries bt path kids)

-- One more pin, and one less.
unpin-pin : (n : Node) → n.lock_count + 1 < 2 ^ 32 → unpin (pinned n) ≡ ok n
unfolding unpin
unpin-pin n h =
    let e : u32 (n.lock_count + 1) ≡ n.lock_count + 1 = omega arith in
    let back : u32 (n.lock_count + 1) - 1 ≡ n.lock_count = omega (arith, e) in
    let some_pin : ltb 0 (u32 (n.lock_count + 1)) ≡ true = ground (arith, e) in
    rw (some_pin, guard) (ap (λ (k : ℕ). ok (record n { lock_count = k })) back)

module _ (bt p key : ℕ) (n : Node) (fit : n.lock_count + 1 < 2 ^ 32) where
  here-Pinned :
      (below rest : Children)
      → (n.ptr == p) ≡ true
      → Pinned bt p (child key n below rest) (child key (pinned n) below rest)
  unfolding climb has entries on_path
  here-Pinned below rest same =
      (rw (same, climb, unpin-pin n fit) refl, rw (same, has) refl, λ _. refl)

  below-Pinned :
      (below rest b : Children)
      → (n.ptr == p) ≡ false
      → has p below ≡ true
      → Pinned bt p below b
      → Pinned bt p (child key n below rest) (child key (pinned n) b rest)
  unfolding climb has entries on_path
  below-Pinned below rest b other inside (e, f, g) = (
    rw (other, f, inside, e, unpin-pin n fit) refl,
    rw (other, f) refl,
    λ path. rw (g (path ++ n.tokens)) refl,
  )

  beside-Pinned :
      (below rest r : Children)
      → (n.ptr == p) ≡ false
      → has p below ≡ false
      → Pinned bt p rest r
      → Pinned bt p (child key n below rest) (child key n below r)
  unfolding climb has entries on_path
  beside-Pinned below rest r other outside (e, f, g) =
      (rw (other, outside, e) refl, rw (other, f) refl, λ path. rw (g path) refl)

climb-Pinned :
    (bt p : ℕ) (kids : Children) → CountsFit kids → Returns (Pinned bt p kids) (climb pin p kids)
unfolding climb has entries on_path pin
climb-Pinned bt p end h = (end, refl, (refl, refl, λ _. refl))
climb-Pinned bt p (child key n below rest) (h, hl, hr) = elim (Bool-cases (n.ptr == p)) [
  | inl same ↦ (
    child key (pinned n) below rest,
    rw (same, climb) refl,
    here-Pinned bt p key n h below rest same,
  )
  | inr other ↦ elim (Bool-cases (has p below)) [
    | inl inside ↦
        let (b, e, w) = climb-Pinned bt p below hl in
        (
          child key (pinned n) b rest,
          rw (other, inside, e) refl,
          below-Pinned bt p key n h below rest b other inside w,
        )
    | inr outside ↦
        let (r, e, w) = climb-Pinned bt p rest hr in
        (
          child key n below r,
          rw (other, outside, e) refl,
          beside-Pinned bt p key n h below rest r other outside w,
        )
  ]
]

-- In a tree whose pin counts are below the top of 32 bits, `lock` of a node of the tree does not
-- fail, changes nothing that is cached, and `unlock` of the same node then gives the tree back.
pub lock-unlock :
    (t : Tree) (p : ℕ)
    → CountsFit t.children
    → has p t.children ≡ true
    → Returns
        (λ q.
          (unlock q (some p) ≡ ok t)
          × (entries t.block_tokens [] q.children ≡ entries t.block_tokens [] t.children))
        (lock t (some p))
unfolding lock unlock walk_up
lock-unlock t p fit present =
    let (q, e, (f, g, k)) = climb-Pinned t.block_tokens p t.children fit in
    elim (Bool-cases (p == 0)) [
      | inl root ↦ (t, rw (root, walk_up) refl, (rw (root, walk_up) refl, refl))
      | inr node ↦ (
        record t { children = q },
        rw (node, present, e) refl,
        (rw (node, g, present, f) refl, k []),
      )
    ]
