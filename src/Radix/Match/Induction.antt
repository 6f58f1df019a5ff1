-- ===== src/Radix/Match/Induction.antt =====
-- Induction along the walk of `match_prefix`: what holds of its results in each of the four cases
-- holds of each result.
use kvslab.Base.{ℕ, ◌*◌, ◌<◌, ◌≡◌, inl, inr, List, arith, ltb, ◌==◌, Bool-cases, length, drop}
use kvslab.Radix.State.{Node, Children, end, child, first_key, common, tick}
use kvslab.Radix.Match.{Walk, stop, end_inside, go_through, match_walk}

module _ {ℓ} (bt fresh : ℕ) (P : Children → List ℕ → ℕ → Walk → Type ℓ)
    (stops : (kids : Children) (ts : List ℕ) (clock : ℕ) → P kids ts clock (stop kids clock))
    (inside : (key : ℕ) (n : Node) (below rest : Children) (ts : List ℕ) (clock : ℕ)
      → key ≡ first_key bt ts
      → 0 < common bt n ts
      → common bt n ts < length n.blocks
      → P
          (child key n below rest)
          ts
          clock
          (end_inside bt (common bt n ts) fresh n below rest clock))
    (through : (key : ℕ) (n : Node) (below rest : Children) (ts : List ℕ) (clock : ℕ) (w : Walk)
      → P below (drop (common bt n ts * bt) ts) (tick clock) w
      → P (child key n below rest) ts clock (go_through bt key n rest clock w))
    (beside : (key : ℕ) (n : Node) (below rest : Children) (ts : List ℕ) (clock : ℕ) (w : Walk)
      → P rest ts clock w
      → P
          (child key n below rest)
          ts
          clock
          (record w { children = child key n below w.children })) where
  pub match_walk-ind :
      (kids : Children) (ts : List ℕ) (clock : ℕ)
      → P kids ts clock (match_walk bt fresh kids ts clock)
  unfolding match_walk
  match_walk-ind end ts clock = stops end ts clock
  match_walk-ind (child key n below rest) ts clock =
      let c = common bt n ts in
      let deeper = match_walk-ind below (drop (c * bt) ts) (tick clock) in
      let other_entry = match_walk-ind rest ts clock in
      elim (Bool-cases (ltb (length ts) bt)) [
        | inl short ↦ rw (short, match_walk) (stops (child key n below rest) ts clock)
        | inr long ↦ elim (Bool-cases (key == first_key bt ts)) [
          | inr other ↦
              rw (long, other, match_walk) (beside key n below rest ts clock _ other_entry)
          | inl same ↦ elim (Bool-cases (c == 0)) [
            | inl zero_common ↦
                rw (long, same, zero_common, match_walk) (stops (child key n below rest) ts clock)
            | inr some_common ↦ elim (Bool-cases (ltb c (length n.blocks))) [
              | inl less ↦
                  rw (long, same, some_common, less, match_walk)
                    (inside key n below rest ts clock (ground arith) (ground arith) (ground arith))
              | inr whole ↦
                  rw (long, same, some_common, whole, match_walk)
                    (through key n below rest ts clock _ deeper)
            ]
          ]
        ]
      ]
