-- ===== src/Radix/Sound/Steps.antt =====
-- `match_prefix`, `insert`, `lock` and `unlock` keep the pool and the tree sound.
use kvslab.Base.{ℕ, ◌*◌, ◌/◌, ◌^◌, ◌<◌, ◌≡◌, refl, List, arith, length, take, Returns}
use kvslab.Pool.State.{Pool}
use kvslab.Radix.State.{Tree}
use kvslab.Radix.Match.{match_prefix}
use kvslab.Radix.Insert.{Stored, insert, insert_limit, insert_walk}
use kvslab.Radix.Insert.Adopt.{Held, CountsOnly, incref_all-Inv, adopted-Held}
use kvslab.Radix.Insert.Limit.{limit_blocks}
use kvslab.Radix.WellFormed.Match.{match_prefix-WellFormed, match_prefix-stored}
use kvslab.Radix.WellFormed.Insert.{insert_walk-WellFormed, insert_walk-stored}
use kvslab.Radix.Sound.{Sound}

pub match_prefix-Sound :
    {held : ℕ → ℕ} {p : Pool} {t : Tree} (s : Sound held p t) (ts : List ℕ)
    → Sound held p (match_prefix t ts).1
unfolding match_prefix
match_prefix-Sound {held} {p} {t} s ts = record {
  pool = s.pool;
  formed = match_prefix-WellFormed t ts s.formed;
  owned = λ b. omega (arith, s.owned b, match_prefix-stored t ts b);
  some_tokens = same_tokens t ts s.some_tokens;
}
  where
    same_tokens :
        (t : Tree) (ts : List ℕ) → 0 < t.block_tokens → 0 < (match_prefix t ts).1.block_tokens
    same_tokens t ts h = h

-- The walk of an `insert`.
abbrev pub stored_walk : Tree → List ℕ → List ℕ → Stored
stored_walk t ts bs =
    let bt = t.block_tokens in
    let limit = insert_limit bt ts bs in
    insert_walk bt t.next_ptr t.children (take limit ts) (take (limit / bt) bs) t.clock

-- From a sound pool and tree, and for blocks that are in use with room for the references in their
-- counts, `insert` does not fail and leaves both sound: the tree holds one reference more for each
-- block that it adopts.
pub insert-Sound :
    {held : ℕ → ℕ} {p : Pool} {t : Tree} (s : Sound held p t) (ts bs : List ℕ)
    → length bs * t.block_tokens < 2 ^ 64
    → Held (length bs) p bs
    → Returns
        (λ (n, q, u).
          Sound held q u
          × (u.block_tokens ≡ t.block_tokens)
          × (u.children ≡ (stored_walk t ts bs).children)
          × CountsOnly p q)
        (insert p t ts bs)
unfolding insert
insert-Sound {held} {p} {t} s ts bs lt h =
    let bt = t.block_tokens in
    let limit = insert_limit bt ts bs in
    let w = insert_walk bt t.next_ptr t.children (take limit ts) (take (limit / bt) bs) t.clock in
    let (q, e, (v, more, only)) =
      incref_all-Inv w.adopted p s.pool
        (adopted-Held p bt t.next_ptr (limit / bt) t.children (take limit ts) bs t.clock h) in
    rw e (
      _,
      refl,
      (
        record {
          pool = v;
          formed =
              insert_walk-WellFormed bt t.next_ptr t.children (take limit ts) (take (limit / bt) bs)
                t.clock s.some_tokens (limit_blocks bt ts bs s.some_tokens lt) s.formed;
          owned = λ b. omega (
            arith,
            s.owned b,
            more b,
            insert_walk-stored b bt t.next_ptr t.children (take limit ts) (take (limit / bt) bs)
                t.clock,
          );
          some_tokens = s.some_tokens;
        },
        refl,
        refl,
        only,
      ),
    )
