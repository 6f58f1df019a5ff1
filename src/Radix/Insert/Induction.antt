-- ===== src/Radix/Insert/Induction.antt =====
-- Induction along the walk of `insert`.
use kvslab.Base.{ℕ, ◌*◌, ◌<◌, ◌≡◌, ◌≢◌, inl, inr, List, arith, ltb, ◌==◌, Bool-cases, length, drop}
use kvslab.Radix.State.{Node, Children, end, child, first_key, common, tick}
use kvslab.Radix.Insert.{Stored, cached, refuse, hang, insert_inside, insert_through, insert_walk}

module _ {ℓ} (bt fresh : ℕ) (P : Children → List ℕ → List ℕ → ℕ → Stored → Type ℓ)
    (caches : (kids : Children) (ts bs : List ℕ) (clock : ℕ)
      → P kids ts bs clock (cached kids clock))
    (refuses : (kids : Children) (ts bs : List ℕ) (clock : ℕ)
      → P kids ts bs clock (refuse kids clock))
    (hangs : (ts bs : List ℕ) (clock : ℕ)
      → 0 < length ts
      → P end ts bs clock (hang bt fresh ts bs clock))
    (inside : (key : ℕ) (n : Node) (below rest : Children) (ts bs : List ℕ) (clock : ℕ)
      → key ≡ first_key bt ts
      → 0 < common bt n ts
      → common bt n ts < length n.blocks
      → P
          (child key n below rest)
          ts
          bs
          clock
          (insert_inside bt (common bt n ts) fresh n below rest ts bs clock))
    (through : (key : ℕ) (n : Node) (below rest : Children) (ts bs : List ℕ) (clock : ℕ)
        (s : Stored)
      → P below (drop (common bt n ts * bt) ts) (drop (common bt n ts) bs) (tick clock) s
      → P (child key n below rest) ts bs clock (insert_through key n rest clock s))
    (beside : (key : ℕ) (n : Node) (below rest : Children) (ts bs : List ℕ) (clock : ℕ) (s : Stored)
      → key ≢ first_key bt ts
      → P rest ts bs clock s
      → P
          (child key n below rest)
          ts
          bs
          clock
          (record s { children = child key n below s.children })) where
  pub insert_walk-ind :
      (kids : Children) (ts bs : List ℕ) (clock : ℕ)
      → P kids ts bs clock (insert_walk bt fresh kids ts bs clock)
  unfolding insert_walk
  insert_walk-ind end ts bs clock = elim (Bool-cases (ltb 0 (length ts))) [
    | inr empty ↦ rw (empty, insert_walk) (caches end ts bs clock)
    | inl some_ts ↦ rw (some_ts, insert_walk) (hangs ts bs clock (ground arith))
  ]
  insert_walk-ind (child key n below rest) ts bs clock =
      let c = common bt n ts in
      let deeper = insert_walk-ind below (drop (c * bt) ts) (drop c bs) (tick clock) in
      let other_entry = insert_walk-ind rest ts bs clock in
      elim (Bool-cases (ltb 0 (length ts))) [
        | inr empty ↦ rw (empty, insert_walk) (caches (child key n below rest) ts bs clock)
        | inl some_ts ↦ elim (Bool-cases (key == first_key bt ts)) [
          | inr other ↦
              rw (some_ts, other, insert_walk)
                (beside key n below rest ts bs clock _ (λ e. ground arith) other_entry)
          | inl same ↦ elim (Bool-cases (c == 0)) [
            | inl zero_common ↦
                rw (some_ts, same, zero_common, insert_walk)
                  (refuses (child key n below rest) ts bs clock)
            | inr some_common ↦ elim (Bool-cases (ltb c (length n.blocks))) [
              | inl less ↦
                  rw (some_ts, same, some_common, less, insert_walk)
                    (inside key n below rest ts bs clock (ground arith) (ground arith)
                      (ground arith))
              | inr whole ↦
                  rw (some_ts, same, some_common, whole, insert_walk)
                    (through key n below rest ts bs clock _ deeper)
            ]
          ]
        ]
      ]
