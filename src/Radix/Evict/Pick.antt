-- ===== src/Radix/Evict/Pick.antt =====
-- `pick_demotion_victims` comes to an end, and what it picks may be moved.
use kvslab.Base.{
  ℕ, zero, suc, ◌+◌, ◌-◌, ◌≤◌, ◌<◌, ◌≡◌, refl, sym, ap, ◌∙◌, inl, inr, true, false, Option, none,
  some, List, [], ◌∷◌, ◌++◌, arith, ltb, ◌==◌, Bool-cases, length, count, length-append, ok,
  Returns,
}
use mathlib.Core.List.{append-nil, append_assoc}
use kvslab.Pool.{block_tier, migrating?}
use kvslab.Pool.State.{Pool}
use kvslab.Pool.Inv.{Inv}
use kvslab.Pool.Refs.{refs, refcount_of-refs, block_tier-some}
use kvslab.Radix.State.{Node, Children, end, child, Tree}
use kvslab.Radix.Sound.{Sound}
use kvslab.Radix.Evict.{pick_blocks, pick_loop, pick_demotion_victims, num_entries, find_lru_leaf}
use kvslab.Radix.Evict.Oldest.{IsEligible, Chosen, find_lru_leaf-Chosen}
use kvslab.Radix.Evict.Removal.{erase_node-Removes, Removes-stored}
use kvslab.Radix.Evict.Loop.{open_nodes, open_nodes-less, open_nodes-all}

IsEligible-any :
    (rejected : List ℕ) (v : Node) (kids : Children)
    → IsEligible rejected v kids
    → IsEligible [] v kids
IsEligible-any rejected v end h = absurd h
IsEligible-any rejected v (child key n end rest) (inl (m, e)) = inl ((m.0, tt), e)
IsEligible-any rejected v (child key n (child k o b r) rest) (inl (m, e)) = absurd m
IsEligible-any rejected v (child key n below rest) (inr (inl h)) =
    inr (inl (IsEligible-any rejected v below h))
IsEligible-any rejected v (child key n below rest) (inr (inr h)) =
    inr (inr (IsEligible-any rejected v rest h))

-- A block that may be demoted: its one reference is that of a leaf without a pin, it is in the
-- compute tier, and it is not on its way.
abbrev pub MayMove : Pool → Children → ℕ → Type 0
MayMove p kids b =
    (refs p b ≡ 1)
    × (block_tier p b ≡ ok 0)
    × (migrating? p b ≡ false)
    × ((v : Node) × IsEligible [] v kids × (0 < count b v.blocks))

abbrev pub AllMayMove : Pool → Children → List ℕ → Type 0
AllMayMove p kids [] = Unit {0}
AllMayMove p kids (b ∷ bs) = MayMove p kids b × AllMayMove p kids bs

AllMayMove-append :
    (p : Pool) (kids : Children) (bs : List ℕ) (b : ℕ)
    → AllMayMove p kids bs
    → MayMove p kids b
    → AllMayMove p kids (bs ++ b ∷ [])
AllMayMove-append p kids [] b h m = (m, tt)
AllMayMove-append p kids (c ∷ bs) b h m = (h.0, AllMayMove-append p kids bs b h.1 m)

-- `picked` is `before` with at most `num` blocks behind it, which may be demoted.
abbrev pub Picked : Pool → Children → List ℕ → ℕ → List ℕ → Type 0
Picked p kids before num picked =
    (added : List ℕ) × (picked ≡ before ++ added) × AllMayMove p kids added × (length added ≤ num)

module _ (p : Pool) (kids : Children) (v : Inv p p.jobs) (before : List ℕ) (num : ℕ) where
  add_one :
      (b : ℕ) (out : List ℕ)
      → Picked p kids before num out
      → length out - length before < num
      → MayMove p kids b
      → Picked p kids before num (out ++ b ∷ [])
  add_one b out (added, e, all, le) room may = (
    added ++ b ∷ [],
    ap (λ (xs : List ℕ). xs ++ b ∷ []) e ∙ append_assoc before added (b ∷ []),
    AllMayMove-append p kids added b all may,
    omega (arith, length-append added (b ∷ []), length-append before added, ap (length {A = ℕ}) e),
  )

  pick_blocks-Picked :
      (n : Node)
      → IsEligible [] n kids
      → (bs out : List ℕ) → ((k : ℕ) → 0 < count k bs → (0 < count k n.blocks) × (0 < refs p k))
      → Picked p kids before num out
      → Returns (Picked p kids before num) (pick_blocks p (length before) num bs out)
  unfolding pick_blocks
  pick_blocks-Picked n h [] out inside w = (out, refl, w)
  pick_blocks-Picked n h (b ∷ bs) out inside w =
      let (there, used) = inside b (ground arith) in
      let later : (k : ℕ) → 0 < count k bs → (0 < count k n.blocks) × (0 < refs p k) =
        λ k c. inside k (omega arith) in
      let (tier, e) = block_tier-some v.storage b used in
      let count_of = refcount_of-refs v.storage b used in
      let skip = pick_blocks-Picked n h bs out later w in
      elim (Bool-cases (ltb (length out - length before) num)) [
        | inr full ↦ (out, rw full refl, w)
        | inl room ↦ elim (Bool-cases (tier == 0)) [
          | inr elsewhere ↦ let (o, f, x) = skip in (o, rw (room, e, elsewhere) f, x)
          | inl compute ↦ elim (Bool-cases (refs p b == 1)) [
            | inr shared ↦ let (o, f, x) = skip in (o, rw (room, e, compute, count_of, shared) f, x)
            | inl only ↦ elim (Bool-cases (migrating? p b)) [
              | inl moving ↦
                  let (o, f, x) = skip in (o, rw (room, e, compute, count_of, only, moving) f, x)
              | inr still ↦
                  let one : refs p b ≡ 1 = ground arith in
                  let zero_tier : tier ≡ 0 = ground arith in
                  let may : MayMove p kids b = (one, e ∙ ap ok zero_tier, still, (n, h, there)) in
                  let (o, f, x) =
                    pick_blocks-Picked n h bs (out ++ b ∷ []) later
                      (add_one b out w (ground arith) may) in
                  (o, rw (room, e, compute, count_of, only, still) f, x)
            ]
          ]
        ]
      ]

module _ (held : ℕ → ℕ) (p : Pool) (t : Tree) (s : Sound held p t) (before : List ℕ) (num : ℕ) where
  -- The blocks of a leaf have references.
  leaf_used :
      (rejected : List ℕ) (v : Node)
      → IsEligible rejected v t.children
      → (k : ℕ) → 0 < count k v.blocks
      → (0 < count k v.blocks) × (0 < refs p k)
  leaf_used rejected v h k c =
      let r = erase_node-Removes t.block_tokens t.next_ptr rejected v t.children s.formed h in
      (c, omega (arith, s.owned k, Removes-stored k r))

  abbrev LoopEnds : ℕ → Type 0
  LoopEnds fuel =
      (rejected out : List ℕ)
      → open_nodes rejected t.children < fuel
      → Picked p t.children before num out
      → Returns (Picked p t.children before num)
          (pick_loop fuel p t (length before) num rejected out)

  pick_round :
      (fuel : ℕ)
      → LoopEnds fuel
      → (rejected out : List ℕ) → open_nodes rejected t.children < suc fuel
      → Picked p t.children before num out
      → ltb (length out - length before) num ≡ true
      → (o : Option Node) → find_lru_leaf t rejected ≡ o
      → Chosen rejected t.children o
      → Returns
          (Picked p t.children before num)
          (pick_loop (suc fuel) p t (length before) num rejected out)
  unfolding pick_loop
  pick_round fuel rounds rejected out m w room none e chosen = (out, rw (room, e) refl, w)
  pick_round fuel rounds rejected out m w room (some v) e (h, oldest) =
      let any = IsEligible-any rejected v t.children h in
      let (more, f, x) =
        pick_blocks-Picked p t.children s.pool before num v any v.blocks out
          (leaf_used rejected v h) w in
      let (o, g, y) =
        rounds (v.ptr ∷ rejected) more (omega (arith, open_nodes-less rejected v t.children h)) x in
      (o, rw (room, e, f) g, y)

  pick_loop-Picked : (fuel : ℕ) → LoopEnds fuel
  unfolding pick_loop
  pick_loop-Picked zero rejected out m w = absurd (omega arith)
  pick_loop-Picked (suc fuel) rejected out m w =
      elim (Bool-cases (ltb (length out - length before) num)) [
        | inr full ↦ (out, rw full refl, w)
        | inl room ↦
            pick_round fuel (pick_loop-Picked fuel) rejected out m w room (find_lru_leaf t rejected)
              refl (find_lru_leaf-Chosen t rejected)
      ]

  -- Where the pool and the tree are well-formed and account for each reference,
  -- `pick_demotion_victims` comes to an end and appends at most `num` blocks, whose number it
  -- returns. Each has one reference, that of a leaf without a pin, is in the compute tier, and is
  -- not on its way.
  pub pick_demotion_victims-Picked :
      Returns
        (λ (n, picked). Picked p t.children before num picked × (length before + n ≡ length picked))
        (pick_demotion_victims p t num before)
  unfolding pick_demotion_victims
  pick_demotion_victims-Picked =
      let start : Picked p t.children before num before =
        ([], sym (append-nil before), tt, omega arith) in
      let (o, e, (added, f, all, le)) =
        pick_loop-Picked (suc (num_entries t.children)) [] before
          (omega (arith, open_nodes-all t.children)) start in
      let len = ap (length {A = ℕ}) f ∙ length-append before added in
      ((length o - length before, o), rw e refl, ((added, f, all, le), omega (arith, len)))
