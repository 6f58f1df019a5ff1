-- ===== src/Radix/Aligned.antt =====
-- `match_prefix` and `insert` keep the nodes of RadixTree aligned to whole blocks.
use kvslab.Base.{
  ℕ, ◌+◌, ◌*◌, ◌/◌, ◌^◌, ◌≤◌, ◌<◌, ◌≡◌, refl, inl, inr, List, arith, ltb, ◌==◌, Bool-cases, length,
  take, drop, length-take, length-drop, Returns,
}
use kvslab.Pool.State.{Pool}
use kvslab.Radix.State.{
  Node, Children, end, child, Tree, first_key, common, tick, split_head, split_tail, split_node,
}
use kvslab.Radix.Entries.{Aligned}
use kvslab.Radix.Match.{stop, end_inside, go_through, match_walk, match_prefix}
use kvslab.Radix.Match.Found.{common-le}
use kvslab.Pool.Inv.{Inv}
use kvslab.Radix.Insert.Adopt.{Held, incref_all-Inv, adopted-Held}
use kvslab.Radix.Insert.Limit.{div_of_mul, some_block, left_over, mul-le, limit_blocks}
use kvslab.Radix.Insert.{
  cached, refuse, leaf, hang, below_head, insert_inside, insert_through, insert_walk, insert,
  insert_limit,
}

-- The first `c` blocks of a run, with their tokens.
front_tokens :
    (bt c : ℕ) (ts bs : List ℕ)
    → length ts ≡ length bs * bt
    → c ≤ length bs
    → length (take (c * bt) ts) ≡ length (take c bs) * bt
front_tokens bt c ts bs e le =
    let blocks : length (take c bs) ≡ c = omega (arith, length-take c bs) in
    rw blocks (omega (arith, length-take (c * bt) ts, mul-le c (length bs) bt le, e))

split_node-Aligned :
    (bt c fresh now : ℕ) (n : Node) (below beside rest : Children)
    → 0 < c
    → c < length n.blocks
    → length n.tokens ≡ length n.blocks * bt
    → Aligned bt below
    → Aligned bt beside
    → Aligned bt rest
    → Aligned bt (split_node bt c fresh now n below beside rest)
unfolding split_node split_head split_tail
split_node-Aligned bt c fresh now n below beside rest some_c lt e l b r = (
  front_tokens bt c n.tokens n.blocks e (omega arith),
  omega (arith, length-take c n.blocks),
  (left_over bt c n.tokens n.blocks e (omega arith), omega (arith, length-drop c n.blocks), l, b),
  r,
)

pub match_walk-Aligned :
    (bt fresh : ℕ) (kids : Children) (ts : List ℕ) (clock : ℕ)
    → Aligned bt kids
    → Aligned bt (match_walk bt fresh kids ts clock).children
unfolding match_walk stop end_inside go_through
match_walk-Aligned bt fresh end ts clock a = tt
match_walk-Aligned bt fresh (child key n below rest) ts clock (a, p, l, r) =
    let c = common bt n ts in
    let deeper = match_walk-Aligned bt fresh below (drop (c * bt) ts) (tick clock) l in
    let beside = match_walk-Aligned bt fresh rest ts clock r in
    elim (Bool-cases (ltb (length ts) bt)) [
      | inl short ↦ rw (short, match_walk) (a, p, l, r)
      | inr long ↦ elim (Bool-cases (key == first_key bt ts)) [
        | inr other ↦ rw (long, other, match_walk) (a, p, l, beside)
        | inl same ↦ elim (Bool-cases (c == 0)) [
          | inl zero_common ↦ rw (long, same, zero_common, match_walk) (a, p, l, r)
          | inr some_common ↦ elim (Bool-cases (ltb c (length n.blocks))) [
            | inl inside ↦
                rw (long, same, some_common, inside, match_walk)
                  (split_node-Aligned bt c fresh (tick clock) n below end rest (ground arith)
                    (ground arith) a l tt r)
            | inr whole ↦ rw (long, same, some_common, whole, match_walk) (a, p, deeper, r)
          ]
        ]
      ]
    ]

hang-Aligned :
    (bt fresh : ℕ) (ts bs : List ℕ) (clock : ℕ)
    → length ts ≡ length bs * bt
    → 0 < length ts
    → Aligned bt (hang bt fresh ts bs clock).children
unfolding hang leaf
hang-Aligned bt fresh ts bs clock e some_ts =
    (e, (some_block bt (length ts) (length bs) e some_ts).0, tt, tt)

below_head-Aligned :
    (bt c fresh : ℕ) (n : Node) (ts bs : List ℕ) (clock : ℕ)
    → length ts ≡ length bs * bt
    → Aligned bt (below_head bt c fresh n ts bs clock).children
unfolding below_head refuse cached
below_head-Aligned bt c fresh n ts bs clock e = elim (Bool-cases (ltb 0 (length ts))) [
  | inr empty ↦ rw (empty, below_head) tt
  | inl some_ts ↦ elim (Bool-cases (first_key bt (split_tail bt c n).tokens == first_key bt ts)) [
    | inl same ↦ rw (some_ts, same, below_head) tt
    | inr other ↦
        rw (some_ts, other, below_head) (hang-Aligned bt fresh ts bs clock e (ground arith))
  ]
]

pub insert_walk-Aligned :
    (bt fresh : ℕ) (kids : Children) (ts bs : List ℕ) (clock : ℕ)
    → 0 < bt
    → length ts ≡ length bs * bt
    → Aligned bt kids
    → Aligned bt (insert_walk bt fresh kids ts bs clock).children
unfolding insert_walk cached refuse insert_inside insert_through
insert_walk-Aligned bt fresh end ts bs clock h e a = elim (Bool-cases (ltb 0 (length ts))) [
  | inr empty ↦ rw (empty, insert_walk) tt
  | inl some_ts ↦ rw (some_ts, insert_walk) (hang-Aligned bt fresh ts bs clock e (ground arith))
]
insert_walk-Aligned bt fresh (child key n below rest) ts bs clock h e (a, p, l, r) =
    let c = common bt n ts in
    let blocks = div_of_mul bt (length ts) (length bs) h e in
    let left = left_over bt c ts bs e (ground (arith, common-le bt n ts, blocks)) in
    let deeper =
      insert_walk-Aligned bt fresh below (drop (c * bt) ts) (drop c bs) (tick clock) h left l in
    let beside = insert_walk-Aligned bt fresh rest ts bs clock h e r in
    let hung =
      below_head-Aligned bt c (fresh + 1) n (drop (c * bt) ts) (drop c bs) (tick clock) left in
    elim (Bool-cases (ltb 0 (length ts))) [
      | inr empty ↦ rw (empty, insert_walk) (a, p, l, r)
      | inl some_ts ↦ elim (Bool-cases (key == first_key bt ts)) [
        | inr other ↦ rw (some_ts, other, insert_walk) (a, p, l, beside)
        | inl same ↦ elim (Bool-cases (c == 0)) [
          | inl zero_common ↦ rw (some_ts, same, zero_common, insert_walk) (a, p, l, r)
          | inr some_common ↦ elim (Bool-cases (ltb c (length n.blocks))) [
            | inl inside ↦
                rw (some_ts, same, some_common, inside, insert_walk)
                  (split_node-Aligned bt c fresh _ n below _ rest (ground arith) (ground arith) a l
                    hung r)
            | inr whole ↦ rw (some_ts, same, some_common, whole, insert_walk) (a, p, deeper, r)
          ]
        ]
      ]
    ]

-- From a tree in which every node holds at least one block and `block_tokens` tokens for each block,
-- `match_prefix` leaves such a tree, and so does `insert`, which does not fail for blocks that are in
-- use with room for the references in their counts.
pub match_prefix-insert-Aligned :
    (pool : Pool) (t : Tree) (ts bs : List ℕ)
    → Inv pool pool.jobs
    → 0 < t.block_tokens
    → Aligned t.block_tokens t.children
    → length bs * t.block_tokens < 2 ^ 64
    → Held (length bs) pool bs
    → Aligned t.block_tokens (match_prefix t ts).1.children
      × Returns (λ (stored, held, q). Aligned q.block_tokens q.children) (insert pool t ts bs)
unfolding match_prefix insert
match_prefix-insert-Aligned pool t ts bs v h a lt held =
    let bt = t.block_tokens in
    let limit = insert_limit bt ts bs in
    let s = insert_walk bt t.next_ptr t.children (take limit ts) (take (limit / bt) bs) t.clock in
    let (q, e, (w, more, only)) =
      incref_all-Inv s.adopted pool v
        (adopted-Held pool bt t.next_ptr (limit / bt) t.children (take limit ts) bs t.clock held) in
    (
      match_walk-Aligned bt t.next_ptr t.children ts t.clock a,
      rw e (
        _,
        refl,
        insert_walk-Aligned bt t.next_ptr t.children (take limit ts) (take (limit / bt) bs) t.clock
            h (limit_blocks bt ts bs h lt) a,
      ),
    )
