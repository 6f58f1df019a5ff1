-- ===== src/Radix/Match/Whole.antt =====
-- A match that takes all tokens.
use kvslab.Base.{
  ℕ, zero, suc, ◌+◌, ◌*◌, ◌≤◌, ◌<◌, ◌≡◌, refl, sym, ap, ◌∙◌, true, false, List, arith, ltb, ◌==◌,
  length, take, drop, count, length-drop, list_eq_self,
}
use mathlib.Core.Path.{subst}
use kvslab.Types.{block_key}
use kvslab.Radix.State.{Node, Children, end, child, first_key, common, common_blocks, tick}
use kvslab.Radix.Entries.{take-take_add, drop-take_add}
use kvslab.Radix.Match.{stop, go_through, match_walk}
use kvslab.Radix.Match.Found.{common-le, room}

-- A run with the same tokens matches in all blocks.
pub common_blocks-same :
    (bt m : ℕ) (xs ys : List ℕ) → take (m * bt) xs ≡ take (m * bt) ys → common_blocks bt m xs ys ≡ m
unfolding common_blocks
common_blocks-same bt zero xs ys e = refl
common_blocks-same bt (suc m) xs ys e =
    let s : suc m * bt ≡ bt + m * bt = omega arith in
    let f : take (bt + m * bt) xs ≡ take (bt + m * bt) ys =
      subst (λ (k : ℕ). take k xs ≡ take k ys) s e in
    let front : take bt xs ≡ take bt ys =
      sym (take-take_add bt (m * bt) xs) ∙ ap (take bt) f ∙ take-take_add bt (m * bt) ys in
    let back : take (m * bt) (drop bt xs) ≡ take (m * bt) (drop bt ys) =
      sym (drop-take_add bt (m * bt) xs) ∙ ap (drop bt) f ∙ drop-take_add bt (m * bt) ys in
    rw (front, list_eq_self (take bt ys), common_blocks-same bt m (drop bt xs) (drop bt ys) back)
      refl

-- The matching part has the same first block.
pub first_key-same :
    (bt c : ℕ) (xs ys : List ℕ)
    → 0 < c
    → take (c * bt) xs ≡ take (c * bt) ys
    → first_key bt xs ≡ first_key bt ys
unfolding first_key
first_key-same bt zero xs ys h e = absurd (omega arith)
first_key-same bt (suc c) xs ys h e =
    let s : suc c * bt ≡ bt + c * bt = omega arith in
    ap block_key (
      sym (take-take_add bt (c * bt) xs)
      ∙ ap (take bt) (subst (λ (k : ℕ). take k xs ≡ take k ys) s e)
      ∙ take-take_add bt (c * bt) ys)

-- A match of `ts` in the map takes all tokens.
abbrev pub Whole : ℕ → Children → List ℕ → Type 0
Whole bt kids ts = (fresh clock : ℕ) → (match_walk bt fresh kids ts clock).tokens ≡ length ts

pub nothing-Whole :
    (bt : ℕ) (kids : Children) (ts : List ℕ) → 0 < bt → length ts ≡ 0 → Whole bt kids ts
unfolding match_walk stop
nothing-Whole bt end ts h e fresh clock = sym e
nothing-Whole bt (child key n below rest) ts h e fresh clock =
    let short : ltb (length ts) bt ≡ true = ground arith in rw (short, match_walk) (sym e)

-- The match goes through a node whose blocks all match.
pub through-Whole :
    (bt key : ℕ) (n : Node) (below rest : Children) (ts : List ℕ)
    → (key == first_key bt ts) ≡ true
    → common bt n ts ≡ length n.blocks
    → 0 < length n.blocks
    → bt ≤ length ts
    → Whole bt below (drop (common bt n ts * bt) ts)
    → Whole bt (child key n below rest) ts
unfolding match_walk go_through
through-Whole bt key n below rest ts same whole some_block long w fresh clock =
    let c = common bt n ts in
    let not_short : ltb (length ts) bt ≡ false = ground arith in
    let found : (c == 0) ≡ false = ground (arith, whole) in
    let not_inside : ltb c (length n.blocks) ≡ false = ground (arith, whole) in
    let left = length-drop (c * bt) ts in
    let fits = room c (length ts) bt (common-le bt n ts).1 in
    rw (not_short, same, found, not_inside)
      (omega (arith, w fresh (tick clock), left, fits, ap (λ (k : ℕ). k * bt) whole))

pub beside-Whole :
    (bt key : ℕ) (n : Node) (below rest : Children) (ts : List ℕ)
    → (key == first_key bt ts) ≡ false
    → bt ≤ length ts
    → Whole bt rest ts
    → Whole bt (child key n below rest) ts
unfolding match_walk
beside-Whole bt key n below rest ts other long w fresh clock =
    let not_short : ltb (length ts) bt ≡ false = ground arith in
    rw (not_short, other) (w fresh clock)

pub common-min :
    (bt m count : ℕ) (xs ys : List ℕ)
    → take (count * bt) xs ≡ take (count * bt) ys
    → m ≡ count
    → common_blocks bt m xs ys ≡ count
common-min bt m count xs ys e f = rw f (common_blocks-same bt count xs ys e)
