-- ===== src/Radix/WellFormed/Insert.antt =====
-- `insert` keeps the tree well-formed.
use kvslab.Base.{
  ℕ, ◌+◌, ◌*◌, ◌≤◌, ◌<◌, ◌≡◌, refl, ◌≢◌, inl, inr, List, arith, ltb, ◌==◌, if◌then◌else◌,
  Bool-cases, length, drop, count,
}
use kvslab.Radix.State.{Node, Children, end, first_key, common, tick, split_tail}
use kvslab.Radix.Insert.{
  Stored, cached, refuse, leaf, hang, below_head, touch_or, insert_inside, insert_through,
  insert_walk,
}
use kvslab.Radix.Insert.Induction.{insert_walk-ind}
use kvslab.Radix.Aligned.{insert_walk-Aligned}
use kvslab.Radix.WellFormed.{nodes_at, stored, NoKey, Keyed, WellFormed}
use kvslab.Radix.WellFormed.Match.{
  split_node-nodes_at, split_node-stored, split_node-NoKey, split_node-Keyed,
}

-- 1 if `p` is one of the `made` addresses from `fresh` on.
abbrev pub new_at : ℕ → ℕ → ℕ → ℕ
new_at p fresh made = if ltb p fresh then 0 else (if ltb p (fresh + made) then 1 else 0)

-- The nodes that are made have the next addresses.
abbrev pub Makes : ℕ → ℕ → Children → Stored → Type 0
Makes p fresh kids s = nodes_at p s.children ≡ nodes_at p kids + new_at p fresh s.made

below_head-Makes :
    (p bt c fresh : ℕ) (n : Node) (ts bs : List ℕ) (clock : ℕ)
    → Makes p fresh end (below_head bt c fresh n ts bs clock)
      × ((below_head bt c fresh n ts bs clock).made ≤ 1)
unfolding below_head hang refuse cached nodes_at leaf
below_head-Makes p bt c fresh n ts bs clock = ground arith

pub insert_walk-Makes :
    (p bt fresh : ℕ) (kids : Children) (ts bs : List ℕ) (clock : ℕ)
    → Makes p fresh kids (insert_walk bt fresh kids ts bs clock)
unfolding hang refuse cached nodes_at leaf insert_inside insert_through
insert_walk-Makes p bt fresh =
    insert_walk-ind bt fresh (λ kids ts bs clock s. Makes p fresh kids s)
      (λ kids ts bs clock. ground arith) (λ kids ts bs clock. ground arith)
      (λ ts bs clock some_ts. ground arith)
      (λ key n below rest ts bs clock e some_c less.
        let c = common bt n ts in
        let s = below_head bt c (fresh + 1) n (drop (c * bt) ts) (drop c bs) (tick clock) in
        ground (
          arith,
          split_node-nodes_at p bt c fresh (touch_or s.touched (tick clock)) key n below s.children
              rest,
          below_head-Makes p bt c (fresh + 1) n (drop (c * bt) ts) (drop c bs) (tick clock),
        ))
      (λ key n below rest ts bs clock s h. omega (arith, h))
      (λ key n below rest ts bs clock s ne h. omega (arith, h))

-- The tree refers to the adopted blocks in addition.
below_head-stored :
    (b bt c fresh : ℕ) (n : Node) (ts bs : List ℕ) (clock : ℕ)
    → let s = below_head bt c fresh n ts bs clock in stored b s.children ≡ count b s.adopted
unfolding below_head hang refuse cached stored leaf
below_head-stored b bt c fresh n ts bs clock = ground arith

pub insert_walk-stored :
    (b bt fresh : ℕ) (kids : Children) (ts bs : List ℕ) (clock : ℕ)
    → let s = insert_walk bt fresh kids ts bs clock in
      stored b s.children ≡ stored b kids + count b s.adopted
unfolding hang refuse cached stored leaf insert_inside insert_through
insert_walk-stored b bt fresh =
    insert_walk-ind bt fresh
      (λ kids ts bs clock s. stored b s.children ≡ stored b kids + count b s.adopted)
      (λ kids ts bs clock. omega arith) (λ kids ts bs clock. omega arith)
      (λ ts bs clock some_ts. omega arith)
      (λ key n below rest ts bs clock e some_c less.
        let c = common bt n ts in
        let s = below_head bt c (fresh + 1) n (drop (c * bt) ts) (drop c bs) (tick clock) in
        omega (
          arith,
          split_node-stored b bt c fresh (touch_or s.touched (tick clock)) key n below s.children
              rest,
          below_head-stored b bt c (fresh + 1) n (drop (c * bt) ts) (drop c bs) (tick clock),
        ))
      (λ key n below rest ts bs clock s h. omega (arith, h))
      (λ key n below rest ts bs clock s ne h. omega (arith, h))

-- The entries stay under their keys, and the map gets no key but that of the tokens.
abbrev KeepsKeys : ℕ → Children → List ℕ → Children → Type 0
KeepsKeys bt kids ts after =
    Keyed bt kids → Keyed bt after × ((k : ℕ) → k ≢ first_key bt ts → NoKey k kids → NoKey k after)

below_head-Keyed :
    (bt c fresh : ℕ) (n : Node) (ts bs : List ℕ) (clock : ℕ)
    → let s = below_head bt c fresh n ts bs clock in
      Keyed bt s.children × NoKey (first_key bt (split_tail bt c n).tokens) s.children
unfolding below_head hang refuse cached leaf
below_head-Keyed bt c fresh n ts bs clock = elim (Bool-cases (ltb 0 (length ts))) [
  | inr empty ↦ rw (empty, below_head) (tt, tt)
  | inl some_ts ↦ elim (Bool-cases (first_key bt (split_tail bt c n).tokens == first_key bt ts)) [
    | inl same ↦ rw (some_ts, same, below_head) (tt, tt)
    | inr other ↦ rw (some_ts, other, below_head) ((refl, tt, tt, tt), ((λ e. ground arith), tt))
  ]
]

insert_walk-KeepsKeys :
    (bt fresh : ℕ) (kids : Children) (ts bs : List ℕ) (clock : ℕ)
    → KeepsKeys bt kids ts (insert_walk bt fresh kids ts bs clock).children
unfolding hang refuse cached leaf insert_inside insert_through
insert_walk-KeepsKeys bt fresh =
    insert_walk-ind bt fresh (λ kids ts bs clock s. KeepsKeys bt kids ts s.children)
      (λ kids ts bs clock h. (h, λ k ne n. n)) (λ kids ts bs clock h. (h, λ k ne n. n))
      (λ ts bs clock some_ts h. ((refl, tt, tt, tt), λ k ne n. (ne, tt)))
      (λ key n below rest ts bs clock e some_c less h.
        let c = common bt n ts in
        let s = below_head bt c (fresh + 1) n (drop (c * bt) ts) (drop c bs) (tick clock) in
        let now = touch_or s.touched (tick clock) in
        let (keyed, no_tail) =
          below_head-Keyed bt c (fresh + 1) n (drop (c * bt) ts) (drop c bs) (tick clock) in
        (
          split_node-Keyed bt c fresh now key n below s.children rest some_c no_tail keyed h,
          λ x ne no_key. split_node-NoKey x bt c fresh now key n below s.children rest h.0 no_key,
        ))
      (λ key n below rest ts bs clock s ih (e, k, l, r). ((e, k, (ih l).0, r), λ x ne h. h))
      (λ key n below rest ts bs clock s ne ih (e, k, l, r).
        ((e, (ih r).1 key ne k, l, (ih r).0), λ x other h. (h.0, (ih r).1 x other h.1)))

pub insert_walk-WellFormed :
    (bt fresh : ℕ) (kids : Children) (ts bs : List ℕ) (clock : ℕ)
    → 0 < bt
    → length ts ≡ length bs * bt
    → WellFormed bt fresh kids
    → let s = insert_walk bt fresh kids ts bs clock in WellFormed bt (fresh + s.made) s.children
insert_walk-WellFormed bt fresh kids ts bs clock h e w =
    let at = λ (p : ℕ). insert_walk-Makes p bt fresh kids ts bs clock in
    record {
      started = omega (arith, w.started);
      aligned = insert_walk-Aligned bt fresh kids ts bs clock h e w.aligned;
      keyed = (insert_walk-KeepsKeys bt fresh kids ts bs clock w.keyed).0;
      distinct = λ p. ground (arith, at p, w.distinct p, w.unused p);
      unused = λ p le. ground (arith, at p, w.unused p);
      not_root = ground (arith, at 0, w.not_root, w.started);
    }
