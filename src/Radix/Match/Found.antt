-- ===== src/Radix/Match/Found.antt =====
-- What `match_prefix` returns is cached.
use kvslab.Base.{
  ℕ, zero, suc, ◌+◌, ◌*◌, ◌/◌, ◌≤◌, ◌<◌, min, ◌≡◌, refl, sym, ap, ◌∙◌, inl, inr, List, [], ◌∷◌,
  ◌++◌, arith, ltb, ◌==◌, Bool-cases, length, take, drop, list_eq, length-append, take-append-drop,
  length-take, length-drop, list_eq→eq,
}
use mathlib.Core.Path.{subst}
use kvslab.Radix.State.{Node, Children, end, child, Tree, first_key, common, common_blocks, tick}
use kvslab.Radix.Entries.{
  entries, expand, AllIn, AllIn-append_left, AllIn-append_right, AllIn-append, AllIn-self, take-nil,
  take-add, Aligned, expand-append,
}
use kvslab.Radix.Match.{stop, end_inside, go_through, match_walk, match_prefix}

-- Over the blocks that the loop counts, the two runs have the same tokens.
common_blocks-expand :
    (bt max : ℕ) (path mine theirs bs : List ℕ)
    → let c = common_blocks bt max mine theirs in
      expand bt path theirs (take c bs) ≡ expand bt path mine (take c bs)
unfolding common_blocks expand
common_blocks-expand bt zero path mine theirs bs = refl
common_blocks-expand bt (suc max) path mine theirs bs =
    elim (Bool-cases (list_eq (take bt mine) (take bt theirs))) [
      | inl y ↦
          rw (y, common_blocks)
            (go bs (list_eq→eq _ _ y)
              (λ p r. common_blocks-expand bt max p (drop bt mine) (drop bt theirs) r))
      | inr n ↦ rw (n, common_blocks) refl
    ]
  where
    go :
        (bs : List ℕ)
        → take bt mine ≡ take bt theirs
        → ((p r : List ℕ)
            → expand bt p
                (drop bt theirs)
                (take (common_blocks bt max (drop bt mine) (drop bt theirs)) r)
              ≡ expand bt p
                  (drop bt mine)
                  (take (common_blocks bt max (drop bt mine) (drop bt theirs)) r))
        → expand bt path theirs
            (take (suc (common_blocks bt max (drop bt mine) (drop bt theirs))) bs)
          ≡ expand bt path mine
              (take (suc (common_blocks bt max (drop bt mine) (drop bt theirs))) bs)
    go [] e ih = refl
    go (b ∷ bs) e ih = rw e (ap (◌∷◌ (path ++ take bt theirs, b)) (ih (path ++ take bt theirs) bs))

pub common_blocks-le : (bt max : ℕ) (mine theirs : List ℕ) → common_blocks bt max mine theirs ≤ max
unfolding common_blocks
common_blocks-le bt zero mine theirs = omega arith
common_blocks-le bt (suc max) mine theirs =
    ground (arith, common_blocks-le bt max (drop bt mine) (drop bt theirs))

-- One block more.
take_more :
    (bt r : ℕ) (mine theirs : List ℕ)
    → take bt mine ≡ take bt theirs
    → take (r * bt) (drop bt mine) ≡ take (r * bt) (drop bt theirs)
    → take (suc r * bt) mine ≡ take (suc r * bt) theirs
take_more bt r mine theirs e f =
    let s : suc r * bt ≡ bt + r * bt = omega arith in
    rw (s, take-add bt (r * bt) mine, take-add bt (r * bt) theirs, e, f)

-- The tokens of the matching blocks are the same.
pub common_blocks-take :
    (bt max : ℕ) (mine theirs : List ℕ)
    → let c = common_blocks bt max mine theirs in take (c * bt) mine ≡ take (c * bt) theirs
unfolding common_blocks
common_blocks-take bt zero mine theirs = let e : 0 * bt ≡ 0 = omega arith in rw e refl
common_blocks-take bt (suc max) mine theirs =
    elim (Bool-cases (list_eq (take bt mine) (take bt theirs))) [
      | inl y ↦
          rw (y, common_blocks)
            (take_more bt _ mine theirs (list_eq→eq _ _ y)
              (common_blocks-take bt max (drop bt mine) (drop bt theirs)))
      | inr n ↦ let e : 0 * bt ≡ 0 = omega arith in rw (n, common_blocks) (rw e refl)
    ]

pub take_all {ℓ} : {A : Type ℓ} (xs : List A) (n : ℕ) → length xs ≤ n → take n xs ≡ xs
take_all [] n h = take-nil n
take_all (x ∷ xs) zero h = absurd (omega arith)
take_all (x ∷ xs) (suc n) h = ap (◌∷◌ x) (take_all xs n (omega arith))

-- The loop asks for no more blocks than the node has, or than are left.
pub common-le :
    (bt : ℕ) (n : Node) (ts : List ℕ)
    → (common bt n ts ≤ length n.blocks) × (common bt n ts ≤ length ts / bt)
unfolding common
common-le bt n ts =
    omega (arith, common_blocks-le bt (min (length n.blocks) (length ts / bt)) n.tokens ts)

-- The entries of a run include those of its first blocks.
AllIn-expand-take :
    (bt c : ℕ) (path ts bs : List ℕ) → AllIn (expand bt path ts (take c bs)) (expand bt path ts bs)
AllIn-expand-take bt c path ts bs =
    subst (λ (xs : List ℕ). AllIn (expand bt path ts (take c bs)) (expand bt path ts xs))
      (take-append-drop c bs)
      (rw (expand-append bt path ts (take c bs) (drop c bs))
        (AllIn-append_left _ _ _ (AllIn-self (expand bt path ts (take c bs)))))

-- The matching blocks, as entries.
matched-AllIn :
    (bt : ℕ) (path : List ℕ) (n : Node) (ts : List ℕ)
    → AllIn (expand bt path ts (take (common bt n ts) n.blocks)) (expand bt path n.tokens n.blocks)
unfolding common
matched-AllIn bt path n ts =
    let c = common bt n ts in
    rw (common_blocks-expand bt (min (length n.blocks) (length ts / bt)) path n.tokens ts n.blocks)
      (AllIn-expand-take bt c path n.tokens n.blocks)

-- Where all blocks of an aligned node match, its tokens are those that the walk had before it.
whole_tokens :
    (bt : ℕ) (n : Node) (ts : List ℕ)
    → length n.tokens ≡ length n.blocks * bt
    → common bt n ts ≡ length n.blocks
    → take (length n.blocks * bt) ts ≡ n.tokens
unfolding common
whole_tokens bt n ts a e =
    ap (λ (c : ℕ). take (c * bt) ts) (sym e)
    ∙ sym (common_blocks-take bt (min (length n.blocks) (length ts / bt)) n.tokens ts)
    ∙ ap (λ (c : ℕ). take (c * bt) n.tokens) e
    ∙ take_all n.tokens (length n.blocks * bt) (omega arith)

-- The tokens of `c` blocks are there, where at most as many blocks are left.
pub room : (c len bt : ℕ) → c ≤ len / bt → c * bt ≤ len
room c len bt h = grind arith

-- What a walk has found is cached behind `path`, and is as long as it says.
abbrev Found : ℕ → List ℕ → List ℕ → Children → List ℕ → ℕ → Type 0
Found bt path ts kids blocks tokens =
    AllIn (expand bt path ts blocks) (entries bt path kids)
    × (tokens ≡ length blocks * bt)
    × (tokens ≤ length ts)

module _ (bt fresh key : ℕ) (n : Node) (below rest : Children) (path ts : List ℕ) where
  nothing-Found : (kids : Children) → Found bt path ts kids [] 0
  unfolding expand
  nothing-Found kids = (tt, omega arith, omega arith)

  beside-Found :
      (blocks : List ℕ) (tokens : ℕ)
      → Found bt path ts rest blocks tokens
      → Found bt path ts (child key n below rest) blocks tokens
  unfolding entries
  beside-Found blocks tokens (a, e, l) =
      (AllIn-append_right _ _ _ (AllIn-append_right _ _ _ a), e, l)

  inside-Found :
      common bt n ts < length n.blocks
      → let c = common bt n ts in
        Found bt path ts (child key n below rest) (take c n.blocks) (c * bt)
  unfolding entries
  inside-Found lt =
      let c = common bt n ts in
      let len : length (take c n.blocks) ≡ c = omega (arith, length-take c n.blocks) in
      (
        AllIn-append_left _ _ _ (matched-AllIn bt path n ts),
        ap (λ (k : ℕ). k * bt) (sym len),
        room c (length ts) bt (common-le bt n ts).1,
      )

  through-Found :
      (blocks : List ℕ) (tokens : ℕ)
      → length n.tokens ≡ length n.blocks * bt
      → common bt n ts ≡ length n.blocks
      → Found bt (path ++ n.tokens) (drop (common bt n ts * bt) ts) below blocks tokens
      → Found bt path ts
          (child key n below rest)
          (n.blocks ++ blocks)
          (length n.blocks * bt + tokens)
  unfolding entries
  through-Found blocks tokens a e (f, g, l) =
      let c = common bt n ts in
      let w = whole_tokens bt n ts a e in
      let own : AllIn (expand bt path ts n.blocks) (expand bt path n.tokens n.blocks) =
        subst (λ (xs : List ℕ). AllIn (expand bt path ts xs) (expand bt path n.tokens n.blocks))
          (take_all n.blocks c (omega arith)) (matched-AllIn bt path n ts) in
      let below_path : AllIn (expand bt (path ++ n.tokens) (drop (length n.blocks * bt) ts) blocks)
          (entries bt (path ++ n.tokens) below) =
        subst
          (λ (k : ℕ).
            AllIn (expand bt (path ++ n.tokens) (drop (k * bt) ts) blocks)
              (entries bt (path ++ n.tokens) below))
          e f in
      (
        rw (expand-append bt path ts n.blocks blocks, w)
            (AllIn-append _ _ _ (AllIn-append_left _ _ _ own)
              (AllIn-append_right _ _ _ (AllIn-append_left _ _ _ below_path))),
        omega (arith, ap (λ (k : ℕ). k * bt) (length-append n.blocks blocks)),
        omega (
          arith,
          length-drop (c * bt) ts,
          room c (length ts) bt (common-le bt n ts).1,
          ap (λ (k : ℕ). k * bt) e,
        ),
      )

match_walk-Found :
    (bt fresh : ℕ) (kids : Children) (path ts : List ℕ) (clock : ℕ)
    → Aligned bt kids
    → let w = match_walk bt fresh kids ts clock in Found bt path ts kids w.blocks w.tokens
unfolding match_walk stop end_inside common go_through
match_walk-Found bt fresh end path ts clock a =
    nothing-Found bt fresh 0
      (record { ptr = 0; tokens = []; blocks = []; lock_count = 0; last_access = 0 }) end end path
      ts end
match_walk-Found bt fresh (child key n below rest) path ts clock (a, p, al, ar) =
    let c = common bt n ts in
    let deeper =
      match_walk-Found bt fresh below (path ++ n.tokens) (drop (c * bt) ts) (tick clock) al in
    let beside = match_walk-Found bt fresh rest path ts clock ar in
    let none_found = nothing-Found bt fresh key n below rest path ts (child key n below rest) in
    elim (Bool-cases (ltb (length ts) bt)) [
      | inl short ↦ rw (short, match_walk) none_found
      | inr long ↦ elim (Bool-cases (key == first_key bt ts)) [
        | inr other ↦
            rw (long, other, match_walk) (beside-Found bt fresh key n below rest path ts _ _ beside)
        | inl same ↦ elim (Bool-cases (c == 0)) [
          | inl zero_common ↦ rw (long, same, zero_common, match_walk) none_found
          | inr some_common ↦ elim (Bool-cases (ltb c (length n.blocks))) [
            | inl inside ↦
                rw (long, same, some_common, inside, match_walk)
                  (inside-Found bt fresh key n below rest path ts (ground arith))
            | inr whole ↦
                rw (long, same, some_common, whole, match_walk)
                  (through-Found bt fresh key n below rest path ts _ _ a
                    (ground (arith, common-le bt n ts)) deeper)
          ]
        ]
      ]
    ]

-- On a tree in which every node holds `block_tokens` tokens for each block, each block that
-- `match_prefix` returns is cached for the very tokens that were asked for, up to the end of that
-- block; `num_tokens` is the length of those blocks, and no more than was asked for.
pub match_prefix-Found :
    (t : Tree) (ts : List ℕ)
    → Aligned t.block_tokens t.children
    → let r = (match_prefix t ts).0 in
      AllIn (expand t.block_tokens [] ts r.blocks) (entries t.block_tokens [] t.children)
      × (r.num_tokens ≡ length r.blocks * t.block_tokens)
      × (r.num_tokens ≤ length ts)
unfolding match_prefix
match_prefix-Found t ts a = match_walk-Found t.block_tokens t.next_ptr t.children [] ts t.clock a
