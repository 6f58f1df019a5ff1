-- ===== src/Radix/Insert/Limit.antt =====
-- Numbers of tokens and of blocks in `insert`.
use kvslab.Base.{
  ℕ, zero, suc, ◌+◌, ◌-◌, ◌*◌, ◌/◌, ◌^◌, ◌≤◌, ◌<◌, min, ◌≡◌, ◌∙◌, inl, inr, List, arith, leb, u64,
  Bool-cases, length, take, drop, count, length-take, length-drop,
}
use kvslab.Radix.Match.Found.{room}
use kvslab.Radix.Insert.{insert_limit}

-- As many blocks as the tokens fill.
pub div_of_mul : (bt len count : ℕ) → 0 < bt → len ≡ count * bt → len / bt ≡ count
div_of_mul bt len count h e = rw e (grind arith)

-- Tokens that are left are a block at least.
pub some_block : (bt len count : ℕ) → len ≡ count * bt → 0 < len → (0 < count) × (bt ≤ len)
some_block bt len zero e h = absurd (omega arith)
some_block bt len (suc count) e h =
    let s : suc count * bt ≡ bt + count * bt = omega arith in omega arith

pub sub_mul : (m c bt : ℕ) → c ≤ m → m * bt - c * bt ≡ (m - c) * bt
sub_mul m zero bt h =
    let z : 0 * bt ≡ 0 = omega arith in
    let same : m - 0 ≡ m = omega arith in rw (z, same) (omega arith)
sub_mul zero (suc c) bt h = absurd (omega arith)
sub_mul (suc m) (suc c) bt h =
    let s : suc m * bt ≡ bt + m * bt = omega arith in
    let t : suc c * bt ≡ bt + c * bt = omega arith in
    let back : suc m - suc c ≡ m - c = omega arith in
    rw back (omega (arith, s, t, sub_mul m c bt (omega arith)))

-- As many blocks are left as tokens for them.
pub left_over :
    (bt c : ℕ) (ts bs : List ℕ)
    → length ts ≡ length bs * bt
    → c ≤ length bs
    → length (drop (c * bt) ts) ≡ length (drop c bs) * bt
left_over bt c ts bs e le =
    rw (length-drop (c * bt) ts, length-drop c bs, e) (sub_mul (length bs) c bt le)

pub mul-le : (a b bt : ℕ) → a ≤ b → a * bt ≤ b * bt
mul-le a b bt h = grind arith

pub min-mul : (a b bt : ℕ) → min (a * bt) (b * bt) ≡ min a b * bt
min-mul a b bt = elim (Bool-cases (leb a b)) [
  | inl le ↦
      let small : min a b ≡ a = ground arith in
      rw small (omega (arith, mul-le a b bt (ground arith)))
  | inr gt ↦
      let small : min a b ≡ b = ground arith in
      rw small (omega (arith, mul-le b a bt (ground arith)))
]

-- The limit is a number of whole blocks, which both lists have.
module _ (bt : ℕ) (ts bs : List ℕ) (h : 0 < bt) (lt : length bs * bt < 2 ^ 64) where
  pub limit-mul : insert_limit bt ts bs ≡ min (length ts / bt) (length bs) * bt
  unfolding insert_limit
  limit-mul =
      let exact : u64 (length bs * bt) ≡ length bs * bt = omega arith in
      rw exact (min-mul (length ts / bt) (length bs) bt)

  pub limit-le : insert_limit bt ts bs ≤ length ts
  limit-le =
      let fits = room (min (length ts / bt) (length bs)) (length ts) bt (omega arith) in
      omega (arith, limit-mul, fits)

  pub limit-div : insert_limit bt ts bs / bt ≡ min (length ts / bt) (length bs)
  limit-div = div_of_mul bt _ (min (length ts / bt) (length bs)) h limit-mul

  pub length-take_limit : length (take (insert_limit bt ts bs) ts) ≡ insert_limit bt ts bs
  length-take_limit = omega (arith, length-take (insert_limit bt ts bs) ts, limit-le)

  pub limit_blocks :
      length (take (insert_limit bt ts bs) ts) ≡ length (take (insert_limit bt ts bs / bt) bs) * bt
  limit_blocks =
      let count : length (take (insert_limit bt ts bs / bt) bs) ≡ min (length ts / bt) (length bs) =
        omega (arith, length-take (insert_limit bt ts bs / bt) bs, limit-div) in
      rw count (length-take_limit ∙ limit-mul)
