-- ===== src/Radix/WellFormed/Match.antt =====
-- `match_prefix` keeps the tree well-formed.
use kvslab.Base.{
  ℕ, zero, suc, ◌+◌, ◌*◌, ◌≤◌, ◌<◌, ◌≡◌, refl, sym, ap, ◌∙◌, List, [], ◌∷◌, ◌++◌, arith, ◌==◌,
  if◌then◌else◌, take, drop, count, take-append-drop,
}
use mathlib.Core.Path.{subst}
use kvslab.Types.{block_key}
use kvslab.Radix.State.{
  Node, Children, end, child, Tree, first_key, common, tick, split_head, split_tail, split_node,
}
use kvslab.Radix.Entries.{take-take_add}
use kvslab.Radix.Match.Induction.{match_walk-ind}
use kvslab.Radix.Match.{Walk, stop, end_inside, go_through, match_walk, match_prefix}
use kvslab.Radix.Aligned.{match_walk-Aligned}
use kvslab.Radix.WellFormed.{nodes_at, stored, NoKey, Keyed, WellFormed}

pub count-append : (b : ℕ) (xs ys : List ℕ) → count b (xs ++ ys) ≡ count b xs + count b ys
count-append b [] ys = omega arith
count-append b (x ∷ xs) ys = omega (arith, count-append b xs ys)

pub count-cut : (b c : ℕ) (xs : List ℕ) → count b (take c xs) + count b (drop c xs) ≡ count b xs
count-cut b c xs =
    sym (count-append b (take c xs) (drop c xs)) ∙ ap (count b) (take-append-drop c xs)

-- The first block stays when whole blocks, one at least, are kept.
first_key-cut : (bt c : ℕ) (ts : List ℕ) → 0 < c → first_key bt (take (c * bt) ts) ≡ first_key bt ts
unfolding first_key
first_key-cut bt zero ts h = absurd (omega arith)
first_key-cut bt (suc c) ts h =
    let e : suc c * bt ≡ bt + c * bt = omega arith in
    rw e (ap block_key (take-take_add bt (c * bt) ts))

pub split_node-nodes_at :
    (p bt c fresh now key : ℕ) (n : Node) (below hung rest : Children)
    → nodes_at p (split_node bt c fresh now n below hung rest)
      ≡ nodes_at p (child key n below rest) + nodes_at p hung + (if fresh == p then 1 else 0)
unfolding nodes_at split_node split_head split_tail
split_node-nodes_at p bt c fresh now key n below hung rest = omega arith

pub split_node-stored :
    (b bt c fresh now key : ℕ) (n : Node) (below hung rest : Children)
    → stored b (split_node bt c fresh now n below hung rest)
      ≡ stored b (child key n below rest) + stored b hung
unfolding stored split_node split_head split_tail
split_node-stored b bt c fresh now key n below hung rest = omega (arith, count-cut b c n.blocks)

pub split_node-NoKey :
    (k bt c fresh now key : ℕ) (n : Node) (below hung rest : Children)
    → key ≡ first_key bt n.tokens
    → NoKey k (child key n below rest)
    → NoKey k (split_node bt c fresh now n below hung rest)
unfolding split_node
split_node-NoKey k bt c fresh now key n below hung rest e (ne, h) = ((λ q. ne (q ∙ sym e)), h)

pub split_node-Keyed :
    (bt c fresh now key : ℕ) (n : Node) (below hung rest : Children)
    → 0 < c
    → NoKey (first_key bt (split_tail bt c n).tokens) hung
    → Keyed bt hung
    → Keyed bt (child key n below rest)
    → Keyed bt (split_node bt c fresh now n below hung rest)
unfolding split_node split_head split_tail
split_node-Keyed bt c fresh now key n below hung rest some_c no_key h (e, k, l, r) = (
  sym (first_key-cut bt c n.tokens some_c),
  subst (λ (x : ℕ). NoKey x rest) e k,
  (refl, no_key, l, h),
  r,
)

-- The walk adds the head of a split, if it splits, and nothing else.
abbrev pub Adds : ℕ → ℕ → Children → List ℕ → ℕ → Walk → Type 0
Adds fresh p kids ts clock w =
    (nodes_at p w.children ≡ nodes_at p kids + (if fresh == p then w.splits else 0))
    × (w.splits ≤ 1)

pub match_walk-nodes_at :
    (p bt fresh : ℕ) (kids : Children) (ts : List ℕ) (clock : ℕ)
    → Adds fresh p kids ts clock (match_walk bt fresh kids ts clock)
unfolding stop end_inside go_through nodes_at
match_walk-nodes_at p bt fresh =
    match_walk-ind bt fresh (Adds fresh p) (λ kids ts clock. ground arith)
      (λ key n below rest ts clock e some_c less.
        ground (
          arith,
          split_node-nodes_at p bt (common bt n ts) fresh (tick clock) key n below end rest,
        ))
      (λ key n below rest ts clock w h. ground (arith, h))
      (λ key n below rest ts clock w h. ground (arith, h))

match_walk-stored :
    (b bt fresh : ℕ) (kids : Children) (ts : List ℕ) (clock : ℕ)
    → stored b (match_walk bt fresh kids ts clock).children ≡ stored b kids
unfolding stop end_inside go_through stored
match_walk-stored b bt fresh =
    match_walk-ind bt fresh (λ kids ts clock w. stored b w.children ≡ stored b kids)
      (λ kids ts clock. refl)
      (λ key n below rest ts clock e some_c less.
        omega
          (arith, split_node-stored b bt (common bt n ts) fresh (tick clock) key n below end rest))
      (λ key n below rest ts clock w h. omega (arith, h))
      (λ key n below rest ts clock w h. omega (arith, h))

-- The entries stay under their keys, and the map gets no other key.
abbrev KeepsKeys : ℕ → Children → Children → Type 0
KeepsKeys bt kids after = Keyed bt kids → Keyed bt after × ((k : ℕ) → NoKey k kids → NoKey k after)

match_walk-KeepsKeys :
    (bt fresh : ℕ) (kids : Children) (ts : List ℕ) (clock : ℕ)
    → KeepsKeys bt kids (match_walk bt fresh kids ts clock).children
unfolding stop end_inside go_through
match_walk-KeepsKeys bt fresh =
    match_walk-ind bt fresh (λ kids ts clock w. KeepsKeys bt kids w.children)
      (λ kids ts clock h. (h, λ k n. n))
      (λ key n below rest ts clock e some_c less h. (
        split_node-Keyed bt (common bt n ts) fresh (tick clock) key n below end rest some_c tt tt h,
        λ x no_key.
            split_node-NoKey x bt (common bt n ts) fresh (tick clock) key n below end rest h.0
              no_key,
      ))
      (λ key n below rest ts clock w ih (e, k, l, r). ((e, k, (ih l).0, r), λ x h. h))
      (λ key n below rest ts clock w ih (e, k, l, r).
        ((e, (ih r).1 key k, l, (ih r).0), λ x h. (h.0, (ih r).1 x h.1)))

pub match_prefix-WellFormed :
    (t : Tree) (ts : List ℕ)
    → WellFormed t.block_tokens t.next_ptr t.children
    → let u = (match_prefix t ts).1 in WellFormed u.block_tokens u.next_ptr u.children
unfolding match_prefix
match_prefix-WellFormed t ts w =
    let at = λ (p : ℕ). match_walk-nodes_at p t.block_tokens t.next_ptr t.children ts t.clock in
    record {
      started = omega (arith, w.started);
      aligned = match_walk-Aligned t.block_tokens t.next_ptr t.children ts t.clock w.aligned;
      keyed = (match_walk-KeepsKeys t.block_tokens t.next_ptr t.children ts t.clock w.keyed).0;
      distinct = λ p. ground (arith, at p, w.distinct p, w.unused p);
      unused = λ p le. ground (arith, at p, w.unused p);
      not_root = ground (arith, at 0, w.not_root, w.started);
    }

pub match_prefix-stored :
    (t : Tree) (ts : List ℕ) (b : ℕ) → stored b (match_prefix t ts).1.children ≡ stored b t.children
unfolding match_prefix
match_prefix-stored t ts b = match_walk-stored b t.block_tokens t.next_ptr t.children ts t.clock
