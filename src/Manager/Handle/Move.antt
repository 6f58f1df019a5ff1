-- ===== src/Manager/Handle/Move.antt =====
-- The move assignment among the handles of a list (src/cache_manager.cpp).
use kvslab.Base.{
  ℕ, zero, suc, ◌+◌, ◌<◌, ◌≡◌, refl, sym, ap, ◌∙◌, ◌≢◌, ◌⊎◌, inl, inr, true, ◌&&◌, Option, none,
  some, List, [], ◌∷◌, arith, ◌==◌, if◌then◌else◌, Bool-cases, length, get_elem?, set, count,
  length-set, get_elem?_of_lt, get_elem?-set_self, get_elem?-set_ne, at-some, Returns,
}
use std.Path.{fun_ext}
use kvslab.Radix.Pin.Same.{NoMore}
use kvslab.Radix.Pin.Anchor.{SameWays}
use kvslab.Radix.Steady.{PinOf}
use kvslab.Manager.{Manager, Allocation, no_allocation, move_assign}
use kvslab.Manager.Serving.{Serving, fresh_blocks}
use kvslab.Manager.Handle.{Holds, abandon_live-Serving}

-- The references that a handle has to give back for block `b`, and its pins at node `k`.
abbrev pub refs_of : ℕ → Allocation → ℕ
refs_of b a = if a.ok && a.owned then count b (fresh_blocks a) else 0

abbrev pub pins_at : ℕ → Option ℕ → ℕ
pins_at k none = 0
pins_at k (some q) = if k == q then 1 else 0

abbrev pub pins_of : ℕ → Allocation → ℕ
pins_of k a = if a.ok && a.owned then pins_at k a.pinned else 0

unfoldable pub sum_by : (Allocation → ℕ) → List Allocation → ℕ
sum_by f [] = 0
sum_by f (a ∷ hs) = f a + sum_by f hs

-- What all handles of the list hold.
abbrev pub held_by : List Allocation → ℕ → ℕ
held_by hs b = sum_by (refs_of b) hs

abbrev pub pins_by : List Allocation → ℕ → ℕ
pins_by hs k = sum_by (pins_of k) hs

sum_by-set :
    (f : Allocation → ℕ) (hs : List Allocation) (i : ℕ) (old new : Allocation)
    → get_elem? hs i ≡ some old
    → sum_by f (set hs i new) + f old ≡ sum_by f hs + f new
unfolding sum_by
sum_by-set f [] i old new h = cc
sum_by-set f (a ∷ hs) zero old new h = let same : a ≡ old = cc in omega (arith, ap f same)
sum_by-set f (a ∷ hs) (suc i) old new h = omega (arith, sum_by-set f hs i old new h)

abbrev moved : List Allocation → ℕ → ℕ → Allocation → List Allocation
moved hs i k other = set (set hs i other) k no_allocation

sum_by-moved :
    (f : Allocation → ℕ) (hs : List Allocation) (i k : ℕ) (this other : Allocation)
    → i ≢ k
    → f no_allocation ≡ 0
    → get_elem? hs i ≡ some this
    → get_elem? hs k ≡ some other
    → sum_by f hs ≡ sum_by f (moved hs i k other) + f this
sum_by-moved f hs i k this other ne e g h = omega (
  arith,
  sum_by-set f hs i this other g,
  sum_by-set f (set hs i other) k other no_allocation (get_elem?-set_ne hs i k other ne ∙ h),
  e,
)

-- Handle `i` is what handle `k` was. If these are two handles then `k` has nothing to give back, and
-- otherwise nothing changes. The other handles are as they were.
abbrev pub Moved : List Allocation → ℕ → ℕ → Manager → List Allocation → Manager → Type 0
Moved hs i k m gs n =
    (get_elem? gs i ≡ get_elem? hs k)
    × (if i == k then (gs ≡ hs) × (n ≡ m) else get_elem? gs k ≡ some no_allocation)
    × ((l : ℕ) → (l ≡ i) ⊎ (l ≡ k) ⊎ (get_elem? gs l ≡ get_elem? hs l))

module _ (hs : List Allocation) (i k : ℕ) (this other : Allocation) (ne : i ≢ k)
    (g : get_elem? hs i ≡ some this) (h : get_elem? hs k ≡ some other) where
  abbrev after : List Allocation
  after = moved hs i k other

  one-Holds : Holds this (held_by after) (held_by hs) (pins_by after) (pins_by hs)
  one-Holds = elim (Bool-cases (this.ok && this.owned)) [
    | inl live ↦ rw live (
      λ b. sum_by-moved (refs_of b) hs i k this other ne refl g h ∙ rw live refl,
      pinned live this.pinned refl,
    )
    | inr dead ↦ rw dead (
      fun_ext (λ b. sum_by-moved (refs_of b) hs i k this other ne refl g h ∙ rw dead (omega arith)),
      fun_ext (λ q. sum_by-moved (pins_of q) hs i k this other ne refl g h ∙ rw dead (omega arith)),
    )
  ]
    where
      pinned :
          (this.ok && this.owned) ≡ true
          → (node : Option ℕ) → this.pinned ≡ node
          → PinOf node (pins_by after) (pins_by hs)
      pinned live none e =
          λ q. sum_by-moved (pins_of q) hs i k this other ne refl g h ∙ rw (live, e) (omega arith)
      pinned live (some r) e =
          λ q. sum_by-moved (pins_of q) hs i k this other ne refl g h ∙ rw (live, e) refl

  place-after : (l : ℕ) → (l ≡ i) ⊎ (l ≡ k) ⊎ (get_elem? after l ≡ get_elem? hs l)
  place-after l = elim (Bool-cases (l == i)) [
    | inl first ↦ inl (ground arith)
    | inr not_first ↦ elim (Bool-cases (l == k)) [
      | inl second ↦ inr (inl (ground arith))
      | inr not_second ↦ inr (
          inr (
            get_elem?-set_ne (set hs i other) k l no_allocation (λ e. ground arith)
            ∙ get_elem?-set_ne hs i l other (λ e. ground arith)))
    ]
  ]

-- The move assignment among the handles that are out does not fail and keeps the invariant for what all
-- of them hold after it. The target becomes what the source was, and what it held is given back if it
-- was armed. The source then has nothing to give back, except that an assignment of a handle to itself
-- changes nothing. The other handles are as they were, for each pinned node the way to it has the same
-- blocks, and the tree refers to no block more often.
pub move_assign-Serving :
    {m : Manager} (hs : List Allocation) (s : Serving (held_by hs) (pins_by hs) m) (i k : ℕ)
    → i < length hs
    → k < length hs
    → Returns
        (λ (gs, n).
          Moved hs i k m gs n
          × Serving (held_by gs) (pins_by gs) n
          × SameWays (pins_by gs) m.tree n.tree
          × NoMore m.tree.children n.tree.children)
        (move_assign m hs i k)
unfolding move_assign
move_assign-Serving {m} hs s i k lt lt2 = elim (Bool-cases (i == k)) [
  | inl self ↦
      let here : i ≡ k = ground arith in
      (
        (hs, m),
        rw self refl,
        (
          (ap (get_elem? hs) here, rw self (refl, refl), λ l. inr (inr refl)),
          s,
          (λ q some_pin. (refl, λ b. refl)),
          λ b. omega arith,
        ),
      )
  | inr two ↦
      let ne : i ≢ k = λ e. ground arith in
      let (this, g) = get_elem?_of_lt hs i lt in
      let (other, h) = get_elem?_of_lt hs k lt2 in
      let ((b, n), e, (served, ways, no_more)) =
        abandon_live-Serving s this (one-Holds hs i k this other ne g h) in
      let out = set hs i other in
      (
        (moved hs i k other, n),
        rw two (rw (at-some hs i g, at-some hs k h) (rw e refl)),
        (
          (
            get_elem?-set_ne out k i no_allocation (λ e2. ne (sym e2))
                ∙ get_elem?-set_self hs i other lt
                ∙ sym h,
            rw two (
                get_elem?-set_self out k no_allocation (omega (arith, lt2, length-set hs i other))),
            place-after hs i k this other ne g h,
          ),
          served,
          ways,
          no_more,
        ),
      )
]
