-- ===== src/Radix/Evict/Keeps.antt =====
-- What each leaf that goes leaves true, `evict` leaves true. So the pool stays healthy, and the blocks
-- of nodes with pins are not touched.
use kvslab.Base.{
  ℕ, zero, suc, ◌+◌, ◌<◌, ◌≡◌, refl, sym, ap, ◌∙◌, inl, inr, Bool, true, false, Option, none, some,
  List, [], ◌∷◌, arith, ltb, if◌then◌else◌, Bool-cases, count, assertion, Result, ok, ◌>>=◌, ◌>>◌,
  guard, for_each, Returns-at, bind-inv, ok-inj, guard-inv,
}
use mathlib.Core.Path.{subst}
use kvslab.Pool.State.{Pool}
use kvslab.Pool.Refs.{Covered, Covered-head, Covered-tail}
use kvslab.Pool.Health.{Healthy}
use kvslab.Pool.Health.Steps.{decref-Healthy}
use kvslab.Pool.Health.Untouched.{Untouched, Untouched-refl, Untouched-trans, decref-Untouched}
use kvslab.Radix.State.{Node, Tree}
use kvslab.Radix.Sound.{Sound}
use kvslab.Radix.Evict.{
  tree_is_sole_owner, count_freed, drop_leaf, evict_loop, evict, find_lru_leaf,
}
use kvslab.Radix.Evict.Oldest.{IsEligible, Chosen, find_lru_leaf-Chosen}
use kvslab.Radix.Evict.Removal.{erase_node-Removes, Removes-stored}
use kvslab.Radix.Evict.Drop.{Single, sole_owner-Single, drop_leaf-Dropped}
use kvslab.Radix.Evict.Loop.{eligible_unpinned}
use kvslab.Radix.Pin.Locked.{locked, eligible-locked, Removes-locked}

module _ (P : Pool → Tree → Type 0)
    (step : (p : Pool) (t : Tree) (rejected : List ℕ) (v : Node) (f : ℕ) (q : Pool) (u : Tree)
      → P p t
      → IsEligible rejected v t.children
      → tree_is_sole_owner p v ≡ ok true
      → drop_leaf p t v ≡ ok (f, q, u)
      → P q u) where
  abbrev Keeps : ℕ → ℕ → Type 0
  Keeps fuel num =
      (freed : ℕ) (rejected : List ℕ) (p : Pool) (t : Tree) (f : ℕ) (q : Pool) (u : Tree)
      → P p t
      → evict_loop fuel num freed rejected p t ≡ ok (f, q, u)
      → P q u

  -- One round, before rounds that keep it.
  module _ (fuel num : ℕ) (rounds : Keeps fuel num) (freed : ℕ) (rejected : List ℕ) (p : Pool)
      (t : Tree) (f : ℕ) (q : Pool) (u : Tree) (h : P p t) where
    as_it_is : {g : ℕ} → ◌≡◌ {A = Result (ℕ × Pool × Tree)} (ok (g, p, t)) (ok (f, q, u)) → P q u
    as_it_is k = subst (λ (x : ℕ × Pool × Tree). P x.1 x.2) (ok-inj k) h

    by_owner :
        (v : Node)
        → IsEligible rejected v t.children
        → (sole : Bool) → tree_is_sole_owner p v ≡ ok sole
        → ◌≡◌ {A = Result (ℕ × Pool × Tree)}
            (if sole
              then (do
                (reclaimed, q2, u2) ← drop_leaf p t v
                guard (ltb 0 reclaimed) assertion
                evict_loop fuel num (freed + reclaimed) rejected q2 u2)
              else evict_loop fuel num freed (v.ptr ∷ rejected) p t)
            (ok (f, q, u))
        → P q u
    by_owner v may false own k = rounds freed (v.ptr ∷ rejected) p t f q u h k
    by_owner v may true own k =
        let ((reclaimed, q2, u2), g, rest) = bind-inv (drop_leaf p t v) _ k in
        rounds (freed + reclaimed) rejected q2 u2 f q u
          (step p t rejected v reclaimed q2 u2 h may own g)
          (guard-inv (ltb 0 reclaimed) assertion _ rest)

    by_leaf :
        (o : Option Node)
        → Chosen rejected t.children o
        → ◌≡◌ {A = Result (ℕ × Pool × Tree)}
            (elim o [
              | none ↦ ok (freed, p, t)
              | some victim ↦ do
                sole ← tree_is_sole_owner p victim
                (if sole
                    then (do
                      (reclaimed, q2, u2) ← drop_leaf p t victim
                      guard (ltb 0 reclaimed) assertion
                      evict_loop fuel num (freed + reclaimed) rejected q2 u2)
                    else evict_loop fuel num freed (victim.ptr ∷ rejected) p t)
            ])
            (ok (f, q, u))
        → P q u
    by_leaf none chosen k = as_it_is k
    by_leaf (some v) chosen k =
        let (sole, own, rest) = bind-inv (tree_is_sole_owner p v) _ k in
        by_owner v chosen.0 sole own rest

  pub evict_loop-Keeps : (fuel num : ℕ) → Keeps fuel num
  unfolding evict_loop
  evict_loop-Keeps zero num freed rejected p t f q u h e = cc
  evict_loop-Keeps (suc fuel) num freed rejected p t f q u h e = elim (Bool-cases (ltb freed num)) [
    | inr enough ↦
        as_it_is fuel num (evict_loop-Keeps fuel num) freed rejected p t f q u h
          (rw (enough, evict_loop) at e)
    | inl less ↦
        by_leaf fuel num (evict_loop-Keeps fuel num) freed rejected p t f q u h
          (find_lru_leaf t rejected) (find_lru_leaf-Chosen t rejected) (rw (less, evict_loop) at e)
  ]

count_freed-Healthy :
    (bs : List ℕ) (freed : ℕ) (p : Pool) {f : ℕ} {q : Pool}
    → Healthy p
    → Covered p bs
    → for_each count_freed bs (freed, p) ≡ ok (f, q)
    → Healthy q × ((b : ℕ) → count b bs ≡ 0 → Untouched b p q)
unfolding count_freed
count_freed-Healthy [] freed p {f} {q} h c e =
    let same : p ≡ q = ap (λ (x : ℕ × Pool). x.1) (ok-inj e) in
    rw (sym same) (h, λ b no_b. Untouched-refl b p)
count_freed-Healthy (b ∷ bs) freed p {f} {q} h c e =
    let ((gone, r), g, (k, one, last)) = decref-Healthy h b (Covered-head p b bs c) in
    let (w, others) =
      count_freed-Healthy bs (if gone then freed + 1 else freed) r k (Covered-tail p r b bs c one)
        (rw (g, for_each) at e) in
    (
      w,
      λ x no_x.
          Untouched-trans (decref-Untouched x b p (λ same. ground arith) g)
            (others x (ground arith)),
    )

-- What holds on the way from a pool and a tree: their references add up, and blocks of nodes with pins
-- are as they were.
record Unharmed (held : ℕ → ℕ) (from : Pool) (at_first : Tree) (p : Pool) (t : Tree) : Type 0 where
  healthy : Healthy p
  sound : Sound held p t
  same : (b : ℕ) → locked b t.children ≡ locked b at_first.children
  untouched : (b : ℕ) → 0 < locked b at_first.children → Untouched b from p

drop_leaf-Unharmed :
    {held : ℕ → ℕ} {from : Pool} {at_first : Tree} (p : Pool) (t : Tree) (rejected : List ℕ)
    (v : Node) (f : ℕ) (q : Pool) (u : Tree)
    → Unharmed held from at_first p t
    → IsEligible rejected v t.children
    → tree_is_sole_owner p v ≡ ok true
    → drop_leaf p t v ≡ ok (f, q, u)
    → Unharmed held from at_first q u
unfolding tree_is_sole_owner drop_leaf
drop_leaf-Unharmed p t rejected v f q u h may own e =
    let s = h.sound in
    let r = erase_node-Removes t.block_tokens t.next_ptr rejected v t.children s.formed may in
    let covered : Covered p v.blocks = λ k. omega (arith, s.owned k, Removes-stored k r) in
    let single : Single p v.blocks =
      Returns-at (sole_owner-Single s.pool v.blocks (λ k c. omega (arith, c, covered k))) own
        refl in
    let d = Returns-at (drop_leaf-Dropped s rejected v may single) e in
    let ((g, w), run, last) = bind-inv (for_each count_freed v.blocks (0, p)) _ e in
    let (healthy, others) = count_freed-Healthy v.blocks 0 p h.healthy covered run in
    let same_pool : w ≡ q = ap (λ (x : ℕ × Pool × Tree). x.1) (ok-inj last) in
    record {
      healthy = subst Healthy same_pool healthy;
      sound = d.sound;
      same =
          λ b. Removes-locked b d.removes (eligible_unpinned rejected v t.children may) ∙ h.same b;
      untouched = λ b pinned.
          let not_its : count b v.blocks ≡ 0 = ground (
            arith,
            single b,
            s.owned b,
            eligible-locked rejected v b t.children may,
            h.same b,
            pinned,
          ) in
          Untouched-trans (h.untouched b pinned)
            (subst (Untouched b p) same_pool (others b not_its));
    }

-- `evict` keeps the pool healthy, and touches no block of a node with a pin.
pub evict-Healthy :
    {held : ℕ → ℕ} {p : Pool} {t : Tree} (h : Healthy p) (s : Sound held p t) (num f : ℕ) (q : Pool)
    (u : Tree)
    → evict num p t ≡ ok (f, q, u)
    → Healthy q × ((b : ℕ) → 0 < locked b t.children → Untouched b p q)
unfolding evict
evict-Healthy {held} {p} {t} h s num f q u e =
    let start : Unharmed held p t p t = record {
      healthy = h;
      sound = s;
      same = λ b. refl;
      untouched = λ b pinned. Untouched-refl b p;
    } in
    let x = evict_loop-Keeps (Unharmed held p t) drop_leaf-Unharmed _ num 0 [] p t f q u start e in
    (x.healthy, x.untouched)
