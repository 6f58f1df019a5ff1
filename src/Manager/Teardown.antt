-- ===== src/Manager/Teardown.antt =====
-- The destructor of CacheManager: its tree gives all blocks back, and nothing leaks.
use kvslab.Base.{
  ℕ, zero, suc, ◌+◌, ◌≤◌, ◌≡◌, refl, ◌∙◌, List, [], ◌∷◌, arith, get_elem?, count, Returns,
}
use kvslab.Pool.{num_used}
use kvslab.Pool.State.{Pool}
use kvslab.Pool.Slots.{in_use, live}
use kvslab.Pool.Inv.{num_used-live}
use kvslab.Pool.Refs.{refs, or_zero}
use kvslab.Pool.Health.{Healthy}
use kvslab.Radix.State.{Children, end, child}
use kvslab.Radix.Evict.{num_entries}
use kvslab.Radix.WellFormed.{stored}
use kvslab.Radix.Clear.{Pending, release_blocks, push_children, clear, root, destroy_tree}
use kvslab.Manager.{Manager}
use kvslab.Manager.Serving.{Serving, drop_all-Healthy}

-- How often the nodes on the stack, and those below them, refer to a block, and how many they are.
abbrev waiting : ℕ → List Pending → ℕ
waiting b [] = 0
waiting b (x ∷ pending) = count b x.node.blocks + stored b x.children + waiting b pending

abbrev rounds : List Pending → ℕ
rounds [] = 0
rounds (x ∷ pending) = suc (num_entries x.children) + rounds pending

push-waiting :
    (b : ℕ) (kids : Children) (pending : List Pending)
    → waiting b (push_children kids pending) ≡ stored b kids + waiting b pending
unfolding push_children stored
push-waiting b end pending = omega arith
push-waiting b (child key n below rest) pending =
    omega (arith, push-waiting b rest (record { node = n; children = below } ∷ pending))

push-rounds :
    (kids : Children) (pending : List Pending)
    → rounds (push_children kids pending) ≡ num_entries kids + rounds pending
unfolding push_children num_entries
push-rounds end pending = omega arith
push-rounds (child key n below rest) pending =
    omega (arith, push-rounds rest (record { node = n; children = below } ∷ pending))

clear-Healthy :
    (fuel : ℕ) (pending : List Pending) {p : Pool} (h : Healthy p)
    → ((b : ℕ) → waiting b pending ≤ refs p b)
    → rounds pending ≤ fuel
    → Returns
        (λ q. Healthy q × ((b : ℕ) → refs q b + waiting b pending ≡ refs p b))
        (clear fuel pending p)
unfolding clear release_blocks
clear-Healthy fuel [] {p} h cover le = (p, refl, (h, λ b. omega arith))
clear-Healthy zero (x ∷ pending) h cover le = absurd (omega arith)
clear-Healthy (suc fuel) (x ∷ pending) {p} h cover le =
    let (q, e, (g, fewer)) = drop_all-Healthy x.node.blocks p h (λ b. omega (arith, cover b)) in
    let next = push_children x.children pending in
    let (r, f, (k, all)) =
      clear-Healthy fuel next g
        (λ b. omega (arith, cover b, fewer b, push-waiting b x.children pending))
        (omega (arith, le, push-rounds x.children pending)) in
    (r, rw e f, (k, λ b. omega (arith, all b, fewer b, push-waiting b x.children pending)))

none-live : (rs : List ℕ) → ((b : ℕ) → or_zero (get_elem? rs b) ≡ 0) → live rs ≡ 0
unfolding live in_use
none-live [] h = refl
none-live (r ∷ rs) h = ground (arith, h 0, none-live rs (λ b. h (suc b)))

-- The destructor of the tree returns, and what is left are the references of the handles that are out.
pub destroy_tree-Healthy :
    {held pins : ℕ → ℕ} {m : Manager} (s : Serving held pins m)
    → Returns (λ p. Healthy p × ((b : ℕ) → refs p b ≡ held b)) (destroy_tree m.pool m.tree)
unfolding destroy_tree
destroy_tree-Healthy {m} s =
    let all = s.steady.sound.owned in
    let (p, e, (h, left)) =
      clear-Healthy (suc (num_entries m.tree.children))
        (record { node = root m.tree; children = m.tree.children } ∷ []) s.healthy
        (λ b. omega (arith, all b)) (omega arith) in
    (p, e, (h, λ b. omega (arith, left b, all b)))

-- A pool without references has no block in use.
pub refs-num_used : {p : Pool} (h : Healthy p) → ((b : ℕ) → refs p b ≡ 0) → num_used p ≡ 0
refs-num_used {p} h nothing = num_used-live h.inv.storage ∙ none-live p.refcount nothing
