-- ===== src/Radix/Insert/Given.antt =====
-- `insert` adopts no block but those that it is given.
use kvslab.Base.{
  ℕ, zero, suc, ◌+◌, ◌*◌, ◌/◌, ◌≤◌, ◌≡◌, ap, List, [], ◌∷◌, arith, take, drop, count, ok, for_each,
  bind-inv, ok-inj,
}
use kvslab.Pool.State.{Pool}
use kvslab.Pool.{incref}
use kvslab.Radix.State.{Tree, Children, Node, tick, common}
use kvslab.Radix.Insert.{
  cached, refuse, hang, below_head, insert_inside, insert_through, insert_walk, insert_limit,
  insert,
}
use kvslab.Radix.Insert.Induction.{insert_walk-ind}
use kvslab.Radix.WellFormed.{stored}
use kvslab.Radix.WellFormed.Insert.{insert_walk-stored}

count-drop : (b k : ℕ) (bs : List ℕ) → count b (drop k bs) ≤ count b bs
count-drop b zero bs = omega arith
count-drop b (suc k) [] = omega arith
count-drop b (suc k) (c ∷ bs) = omega (arith, count-drop b k bs)

count-take : (b k : ℕ) (bs : List ℕ) → count b (take k bs) ≤ count b bs
count-take b zero bs = omega arith
count-take b (suc k) [] = omega arith
count-take b (suc k) (c ∷ bs) = omega (arith, count-take b k bs)

below_head-adopted :
    (b bt c fresh : ℕ) (n : Node) (ts bs : List ℕ) (clock : ℕ)
    → count b (below_head bt c fresh n ts bs clock).adopted ≤ count b bs
unfolding below_head hang refuse cached
below_head-adopted b bt c fresh n ts bs clock = ground arith

insert_walk-adopted :
    (b bt fresh : ℕ) (kids : Children) (ts bs : List ℕ) (clock : ℕ)
    → count b (insert_walk bt fresh kids ts bs clock).adopted ≤ count b bs
unfolding hang refuse cached insert_inside insert_through
insert_walk-adopted b bt fresh =
    insert_walk-ind bt fresh (λ kids ts bs clock s. count b s.adopted ≤ count b bs)
      (λ kids ts bs clock. omega arith) (λ kids ts bs clock. omega arith)
      (λ ts bs clock some_ts. omega arith)
      (λ key n below rest ts bs clock e some_c less.
        let c = common bt n ts in
        omega (
          arith,
          below_head-adopted b bt c (fresh + 1) n (drop (c * bt) ts) (drop c bs) (tick clock),
          count-drop b c bs,
        ))
      (λ key n below rest ts bs clock s h. omega (arith, h, count-drop b (common bt n ts) bs))
      (λ key n below rest ts bs clock s ne h. h)

-- The tree refers to no block more often, but for those that are given.
pub insert-stored :
    (p : Pool) (t : Tree) (ts bs : List ℕ) {n : ℕ} {q : Pool} {u : Tree}
    → insert p t ts bs ≡ ok (n, q, u)
    → (b : ℕ) → count b bs ≡ 0
    → stored b u.children ≤ stored b t.children
unfolding insert
insert-stored p t ts bs {n} {q} {u} e b no_b =
    let bt = t.block_tokens in
    let limit = insert_limit bt ts bs in
    let given = take (limit / bt) bs in
    let w = insert_walk bt t.next_ptr t.children (take limit ts) given t.clock in
    let (held, f, last) = bind-inv (for_each incref w.adopted p) _ e in
    let kids : w.children ≡ u.children = ap (λ (x : ℕ × Pool × Tree). x.2.children) (ok-inj last) in
    omega (
      arith,
      no_b,
      count-take b (limit / bt) bs,
      insert_walk-adopted b bt t.next_ptr t.children (take limit ts) given t.clock,
      insert_walk-stored b bt t.next_ptr t.children (take limit ts) given t.clock,
      ap (stored b) kids,
    )
