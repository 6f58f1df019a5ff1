-- ===== src/Radix/Pin/Locked.antt =====
-- What is pinned stays: `evict` and `pick_demotion_victims`.
use kvslab.Base.{
  ℕ, ◌+◌, ◌≤◌, ◌<◌, ◌≡◌, refl, sym, ap, ◌∙◌, ◌⊎◌, inl, inr, List, [], ◌∷◌, arith, ◌==◌,
  if◌then◌else◌, Bool-cases, count, Returns,
}
use mathlib.Core.Path.{subst}
use kvslab.Pool.State.{Pool}
use kvslab.Pool.Refs.{refs}
use kvslab.Radix.State.{Node, Children, end, child, Tree}
use kvslab.Radix.WellFormed.{stored}
use kvslab.Radix.Sound.{Sound}
use kvslab.Radix.Evict.{evict, pick_demotion_victims}
use kvslab.Radix.Evict.Oldest.{IsEligible}
use kvslab.Radix.Evict.Removal.{Removes, here, under, beside}
use kvslab.Radix.Evict.Loop.{Pruned, as_it_was, leaf_gone}
use kvslab.Radix.Evict.Pick.{AllMayMove, pick_demotion_victims-Picked}
use kvslab.Radix.Steady.{Steady, evict-Steady}

-- How often the nodes with a pin refer to block `b`.
unfoldable pub locked : ℕ → Children → ℕ
locked b end = 0
locked b (child key n below rest) =
    (if n.lock_count == 0 then 0 else count b n.blocks) + (locked b below + locked b rest)

pub locked-stored : (b : ℕ) (kids : Children) → locked b kids ≤ stored b kids
unfolding locked stored
locked-stored b end = omega arith
locked-stored b (child key n below rest) =
    ground (arith, locked-stored b below, locked-stored b rest)

pub eligible-locked :
    (rejected : List ℕ) (v : Node) (b : ℕ) (kids : Children)
    → IsEligible rejected v kids
    → locked b kids + count b v.blocks ≤ stored b kids
unfolding locked stored
eligible-locked rejected v b end h = absurd h
eligible-locked rejected v b (child key n end rest) (inl ((unpinned, ok_rest), e)) =
    let same : count b n.blocks ≡ count b v.blocks = ap (λ (m : Node). count b m.blocks) e in
    ground (arith, same, unpinned, locked-stored b rest)
eligible-locked rejected v b (child key n (child k m c r) rest) (inl (may, e)) = absurd may
eligible-locked rejected v b (child key n below rest) (inr (inl h)) =
    ground (arith, eligible-locked rejected v b below h, locked-stored b rest)
eligible-locked rejected v b (child key n below rest) (inr (inr h)) =
    ground (arith, eligible-locked rejected v b rest h, locked-stored b below)

pub Removes-locked :
    {v : Node} {kids less : Children} (b : ℕ)
    → Removes v kids less
    → v.lock_count ≡ 0
    → locked b less ≡ locked b kids
unfolding locked
Removes-locked b here e = ground (arith, e)
Removes-locked b (under r) e = omega (arith, Removes-locked b r e)
Removes-locked b (beside r) e = omega (arith, Removes-locked b r e)

pub Pruned-locked :
    {kids less : Children} (b : ℕ) → Pruned kids less → locked b less ≡ locked b kids
Pruned-locked b as_it_was = refl
Pruned-locked b (leaf_gone r e rest) = Pruned-locked b rest ∙ Removes-locked b r e

-- `evict` leaves each reference that a node with a pin has to a block, and the block keeps at least as
-- many references.
pub evict-locked :
    {held pins : ℕ → ℕ} {p : Pool} {t : Tree} (s : Steady held pins p t) (num : ℕ)
    → Returns
        (λ (f, q, u).
          (b : ℕ) → (locked b u.children ≡ locked b t.children) × (locked b t.children ≤ refs q b))
        (evict num p t)
evict-locked s num =
    let ((f, q, u), e, (after, x)) = evict-Steady s num in
    (
      (f, q, u),
      e,
      λ b.
          let same = Pruned-locked b x.pruned in
          (same, omega (arith, same, locked-stored b u.children, after.sound.owned b)),
    )

pub AllUnlocked-from :
    {held : ℕ → ℕ} {p : Pool} {t : Tree} (s : Sound held p t) (bs : List ℕ) (b : ℕ)
    → AllMayMove p t.children bs
    → 0 < count b bs
    → locked b t.children ≡ 0
AllUnlocked-from s [] b h some_b = absurd (omega arith)
AllUnlocked-from {t} s (c ∷ bs) b ((one, tier, idle, (v, may, has_it)), hs) some_b =
    elim (Bool-cases (c == b)) [
      | inl same ↦
          let e : c ≡ b = ground arith in
          let le = eligible-locked [] v c t.children may in
          ap (λ (x : ℕ). locked x t.children) (sym e) ∙ omega (arith, le, has_it, one, s.owned c)
      | inr other ↦ AllUnlocked-from s bs b hs (ground arith)
    ]

-- Where the pool and the tree account for each reference, `pick_demotion_victims` picks no block of a
-- node with a pin.
pub pick_demotion_victims-unlocked :
    {held : ℕ → ℕ} {p : Pool} {t : Tree} (s : Sound held p t) (num : ℕ)
    → Returns
        (λ (n, picked). (b : ℕ) → (count b picked ≡ 0) ⊎ (locked b t.children ≡ 0))
        (pick_demotion_victims p t num [])
pick_demotion_victims-unlocked {held} {p} {t} s num =
    let ((n, picked), e, ((added, f, all, le), len)) =
      pick_demotion_victims-Picked held p t s [] num in
    (
      (n, picked),
      e,
      λ b. elim (Bool-cases (count b picked == 0)) [
        | inl none_of ↦ inl (ground arith)
        | inr some_of ↦ inr (
            AllUnlocked-from s picked b (subst (AllMayMove p t.children) (sym f) all)
              (ground arith))
      ],
    )
