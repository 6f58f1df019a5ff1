-- ===== src/Radix/Insert/Lookup.antt =====
-- `match_prefix` after `insert`.
use kvslab.Base.{
  ℕ, ◌+◌, ◌*◌, ◌/◌, ◌^◌, ◌<◌, min, ◌≡◌, refl, sym, ap, ◌∙◌, ◌⊎◌, inl, inr, true, false, List, arith,
  ltb, ◌==◌, Bool-cases, length, take, drop, length-take, length-drop, Returns,
}
use mathlib.Core.Path.{subst}
use kvslab.Radix.State.{
  Node, Children, end, child, Tree, first_key, common, tick, split_head, split_tail, split_node,
}
use kvslab.Radix.Entries.{Aligned}
use kvslab.Radix.Match.{match_prefix}
use kvslab.Radix.Match.Found.{common_blocks-take, common-le, take_all}
use kvslab.Pool.State.{Pool}
use kvslab.Pool.Inv.{Inv}
use kvslab.Radix.Insert.Adopt.{Held, incref_all-Inv, adopted-Held}
use kvslab.Radix.Match.Whole.{
  Whole, nothing-Whole, through-Whole, beside-Whole, first_key-same, common-min,
}
use kvslab.Radix.Insert.Limit.{div_of_mul, some_block, left_over, length-take_limit, limit_blocks}
use kvslab.Radix.Insert.{
  insert, insert_limit, cached, refuse, leaf, hang, below_head, touch_or, insert_inside,
  insert_through, insert_walk,
}

hang-Whole :
    (bt fresh : ℕ) (ts bs : List ℕ) (clock : ℕ)
    → 0 < bt
    → length ts ≡ length bs * bt
    → 0 < length ts
    → Whole bt (hang bt fresh ts bs clock).children ts
unfolding hang leaf common
hang-Whole bt fresh ts bs clock h e some_ts =
    let n = leaf fresh ts bs (tick clock) in
    let (some_bs, long) = some_block bt (length ts) (length bs) e some_ts in
    let blocks = div_of_mul bt (length ts) (length bs) h e in
    let all : common bt n ts ≡ length bs =
      common-min bt (min (length bs) (length ts / bt)) (length bs) ts ts refl
        (ground (arith, blocks)) in
    let rest : length (drop (common bt n ts * bt) ts) ≡ 0 =
      omega (arith, length-drop (common bt n ts * bt) ts, ap (λ (k : ℕ). k * bt) all) in
    through-Whole bt (first_key bt ts) n end end ts (ground arith) all some_bs long
      (nothing-Whole bt end (drop (common bt n ts * bt) ts) h rest)

-- What is left below the head of a split.
below_head-Whole :
    (bt c fresh : ℕ) (n : Node) (below : Children) (ts bs : List ℕ) (clock : ℕ)
    → 0 < bt
    → length ts ≡ length bs * bt
    → let s = below_head bt c fresh n ts bs clock in
      s.refused ≡ false
      → Whole bt
          (child (first_key bt (split_tail bt c n).tokens) (split_tail bt c n) below s.children)
          ts
unfolding below_head refuse cached
below_head-Whole bt c fresh n below ts bs clock h e kept =
    let t = split_tail bt c n in
    elim (Bool-cases (ltb 0 (length ts))) [
      | inr empty ↦
          rw (empty, below_head)
            (nothing-Whole bt (child (first_key bt t.tokens) t below end) ts h (ground arith))
      | inl some_ts ↦ elim (Bool-cases (first_key bt t.tokens == first_key bt ts)) [
        | inl same ↦ absurd (ground arith)
        | inr other ↦
            rw (some_ts, other, below_head)
              (beside-Whole bt (first_key bt t.tokens) t below (hang bt fresh ts bs clock).children
                ts other (some_block bt (length ts) (length bs) e (ground arith)).1
                (hang-Whole bt fresh ts bs clock h e (ground arith)))
      ]
    ]

inside-Whole :
    (bt fresh key : ℕ) (n : Node) (below rest : Children) (ts bs : List ℕ) (clock : ℕ)
    → 0 < bt
    → length ts ≡ length bs * bt
    → (key == first_key bt ts) ≡ true
    → 0 < length ts
    → 0 < common bt n ts
    → common bt n ts < length n.blocks
    → let s = insert_inside bt (common bt n ts) fresh n below rest ts bs clock in
      s.refused ≡ false → Whole bt s.children ts
unfolding insert_inside split_node split_head common
inside-Whole bt fresh key n below rest ts bs clock h e same some_ts some_common inside kept =
    let c = common bt n ts in
    let s = below_head bt c (fresh + 1) n (drop (c * bt) ts) (drop c bs) (tick clock) in
    let head = record (split_head bt c fresh n) { last_access = touch_or s.touched (tick clock) } in
    let equal : take (c * bt) n.tokens ≡ take (c * bt) ts =
      common_blocks-take bt (min (length n.blocks) (length ts / bt)) n.tokens ts in
    let blocks = div_of_mul bt (length ts) (length bs) h e in
    let le = common-le bt n ts in
    let own : length (take c n.blocks) ≡ c = omega (arith, length-take c n.blocks) in
    let cut : take (c * bt) (take (c * bt) n.tokens) ≡ take (c * bt) ts =
      take_all (take (c * bt) n.tokens) (c * bt) (omega (arith, length-take (c * bt) n.tokens))
      ∙ equal in
    let all : common bt head ts ≡ c =
      common-min bt (min (length (take c n.blocks)) (length ts / bt)) c (take (c * bt) n.tokens) ts
        cut (ground (arith, own, le)) in
    let left : length (drop (c * bt) ts) ≡ length (drop c bs) * bt =
      left_over bt c ts bs e (ground (arith, le, blocks)) in
    through-Whole bt (first_key bt n.tokens) head
      (child (first_key bt (split_tail bt c n).tokens) (split_tail bt c n) below s.children) rest ts
      (ground (arith, first_key-same bt c n.tokens ts some_common equal)) (all ∙ sym own)
      (omega (arith, own)) (some_block bt (length ts) (length bs) e some_ts).1
      (subst
        (λ (k : ℕ).
          Whole bt
            (child (first_key bt (split_tail bt c n).tokens) (split_tail bt c n) below s.children)
            (drop (k * bt) ts))
        (sym all)
        (below_head-Whole bt c (fresh + 1) n below (drop (c * bt) ts) (drop c bs) (tick clock) h
          left kept))

walk-Whole :
    (bt fresh : ℕ) (kids : Children) (ts bs : List ℕ) (clock : ℕ)
    → 0 < bt
    → length ts ≡ length bs * bt
    → Aligned bt kids
    → let s = insert_walk bt fresh kids ts bs clock in s.refused ≡ false → Whole bt s.children ts
unfolding insert_walk cached refuse insert_through common
walk-Whole bt fresh end ts bs clock h e a kept = elim (Bool-cases (ltb 0 (length ts))) [
  | inr empty ↦ rw (empty, insert_walk) (nothing-Whole bt end ts h (ground arith))
  | inl some_ts ↦ rw (some_ts, insert_walk) (hang-Whole bt fresh ts bs clock h e (ground arith))
]
walk-Whole bt fresh (child key n below rest) ts bs clock h e (a, p, al, ar) kept =
    let c = common bt n ts in
    let le = common-le bt n ts in
    let blocks = div_of_mul bt (length ts) (length bs) h e in
    let left = left_over bt c ts bs e (ground (arith, le, blocks)) in
    let deeper = walk-Whole bt fresh below (drop (c * bt) ts) (drop c bs) (tick clock) h left al in
    let beside = walk-Whole bt fresh rest ts bs clock h e ar in
    elim (Bool-cases (ltb 0 (length ts))) [
      | inr empty ↦
          rw (empty, insert_walk) (nothing-Whole bt (child key n below rest) ts h (ground arith))
      | inl some_ts ↦ elim (Bool-cases (key == first_key bt ts)) [
        | inr other ↦
            rw (some_ts, other, insert_walk)
              (beside-Whole bt key n below _ ts other
                (some_block bt (length ts) (length bs) e (ground arith)).1 (beside (ground arith)))
        | inl same ↦ elim (Bool-cases (c == 0)) [
          | inl zero_common ↦ absurd (ground arith)
          | inr some_common ↦ elim (Bool-cases (ltb c (length n.blocks))) [
            | inl inside ↦
                rw (some_ts, same, some_common, inside, insert_walk)
                  (inside-Whole bt fresh key n below rest ts bs clock h e same (ground arith)
                    (ground arith) (ground arith) (ground arith))
            | inr whole ↦
                rw (some_ts, same, some_common, whole, insert_walk)
                  (let all : common bt n ts ≡ length n.blocks = ground (arith, le) in
                    through-Whole bt key (record n { last_access = _ }) _ rest ts same all p
                      (some_block bt (length ts) (length bs) e (ground arith)).1
                      (deeper (ground arith)))
          ]
        ]
      ]
    ]

-- On a tree in which every node holds `block_tokens` tokens for each block, and for blocks that are
-- in use with room for the references in their counts, `insert` does not fail and keeps the
-- invariant of the pool. Either it counts one hash collision more, or it counts none and a
-- `match_prefix` of the tokens up to the limit then finds them all.
pub insert-match_prefix :
    (pool : Pool) (t : Tree) (ts bs : List ℕ)
    → Inv pool pool.jobs
    → 0 < t.block_tokens
    → Aligned t.block_tokens t.children
    → length bs * t.block_tokens < 2 ^ 64
    → Held (length bs) pool bs
    → let limit = insert_limit t.block_tokens ts bs in
      Returns
        (λ (stored, held, q).
          Inv held held.jobs
          × ((q.collisions ≡ t.collisions + 1)
              ⊎ ((q.collisions ≡ t.collisions)
                  × ((match_prefix q (take limit ts)).0.num_tokens ≡ limit))))
        (insert pool t ts bs)
unfolding insert insert_limit match_prefix
insert-match_prefix pool t ts bs v h a lt held =
    let bt = t.block_tokens in
    let limit = insert_limit bt ts bs in
    let s = insert_walk bt t.next_ptr t.children (take limit ts) (take (limit / bt) bs) t.clock in
    let (q, e, (w, more, only)) =
      incref_all-Inv s.adopted pool v
        (adopted-Held pool bt t.next_ptr (limit / bt) t.children (take limit ts) bs t.clock held) in
    rw e (
      _,
      refl,
      (
        w,
        elim (Bool-cases s.refused) [
          | inl collision ↦ inl (rw collision refl)
          | inr kept ↦ inr (
            rw kept (omega arith),
            walk-Whole bt t.next_ptr t.children (take limit ts) (take (limit / bt) bs) t.clock h
                  (limit_blocks bt ts bs h lt) a kept _ _
                ∙ length-take_limit bt ts bs h lt,
          )
        ],
      ),
    )
