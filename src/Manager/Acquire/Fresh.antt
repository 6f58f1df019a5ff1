-- ===== src/Manager/Acquire/Fresh.antt =====
-- The end of `acquire`: new blocks for the tokens behind the match, and the handle that has them.
use kvslab.Radix.WellFormed.{stored}
use kvslab.Radix.State.{Tree}
use kvslab.Manager.Serving.{fresh_blocks}
use kvslab.Base.{
  ℕ, zero, suc, ◌+◌, ◌≤◌, ◌<◌, ◌≡◌, refl, sym, ap, ◌∙◌, inl, inr, true, List, [], ◌∷◌, ◌++◌, arith,
  ◌==◌, u64, Bool-cases, length, take, drop, count, length-append, Returns,
}
use mathlib.Core.List.{append_assoc, append-nil}
use kvslab.Pool.State.{Pool}
use kvslab.Pool.Inv.{Inv}
use kvslab.Pool.Refs.{refs}
use kvslab.Pool.Health.{Healthy}
use kvslab.Pool.Health.Room.{room, num_away, allocate-room}
use kvslab.Radix.State.{Tree}
use kvslab.Radix.Steady.{Steady, PinOf}
use kvslab.Manager.{Stats, Manager, Allocation}
use kvslab.Manager.Serving.{Serving, HeldWith}
use kvslab.Manager.Maintain.{Steady-same, AllUsed, maintain-Serving, maintain-tree}
use kvslab.Manager.Acquire.{allocate_fresh, serve}
use kvslab.Manager.Acquire.Promote.{promote_all}

-- `n` new blocks stand behind `blocks`, each with one reference.
record Added (n : ℕ) (blocks bs : List ℕ) (p q : Pool) : Type 0 where
  healthy : Healthy q
  new : List ℕ
  behind : bs ≡ blocks ++ new
  as_many : length new ≡ n
  counts : (b : ℕ) → refs q b ≡ refs p b + count b new
  once : (b : ℕ) → count b new ≤ 1
  were_free : (b : ℕ) → 0 < count b new → refs p b ≡ 0

allocate_all :
    (n : ℕ) (blocks : List ℕ) {p : Pool}
    → Healthy p
    → n ≤ room p
    → Returns (λ (bs, q). Added n blocks bs p q) (allocate_fresh n blocks p)
unfolding allocate_fresh
allocate_all zero blocks {p} h le = (
  (blocks, p),
  refl,
  record {
    healthy = h;
    new = [];
    behind = sym (append-nil blocks);
    as_many = refl;
    counts = λ b. omega arith;
    once = λ b. omega arith;
    were_free = λ b some_b. absurd (omega arith);
  },
)
allocate_all (suc n) blocks {p} h le =
    let ((id, q), e, (g, valid, one, unused, slot, others)) = allocate-room h (omega (arith, le)) in
    let ((bs, r), f, x) = allocate_all n (blocks ++ id ∷ []) g (omega (arith, le, slot)) in
    (
      (bs, r),
      rw (e, valid) f,
      record {
        healthy = x.healthy;
        new = id ∷ x.new;
        behind = x.behind ∙ append_assoc blocks (id ∷ []) x.new;
        as_many = ap suc x.as_many;
        counts = λ b. omega (arith, x.counts b, one b);
        once = λ b. elim (Bool-cases (id == b)) [
          | inl same ↦ let s : id ≡ b = ground arith in ground (arith, one b, x.were_free b)
          | inr other ↦ ground (arith, x.once b)
        ];
        were_free = λ b some_b. elim (Bool-cases (id == b)) [
          | inl same ↦ let s : id ≡ b = ground arith in ap (refs p) (sym s) ∙ unused
          | inr other ↦ ground (arith, one b, x.were_free b)
        ];
      },
    )

-- More references, as many as are held.
Steady-more :
    {held pins : ℕ → ℕ} {p : Pool} {t : Tree} (s : Steady held pins p t) (q : Pool) (new : List ℕ)
    → Inv q q.jobs
    → ((b : ℕ) → refs q b ≡ refs p b + count b new)
    → Steady (λ b. held b + count b new) pins q t
Steady-more s q new v e = record {
  sound = record {
    pool = v;
    formed = s.sound.formed;
    owned = λ b. omega (arith, s.sound.owned b, e b);
    some_tokens = s.sound.some_tokens;
  };
  counted = s.counted;
  present = s.present;
}

drop-append : (xs ys : List ℕ) → drop (length xs) (xs ++ ys) ≡ ys
drop-append [] ys = refl
drop-append (x ∷ xs) ys = drop-append xs ys

take-append : (xs ys : List ℕ) → take (length xs) (xs ++ ys) ≡ xs
take-append [] ys = refl
take-append (x ∷ xs) ys = ap (λ (zs : List ℕ). x ∷ zs) (take-append xs ys)

-- The handle has the one reference to the block.
abbrev pub OnlyHere : ℕ → (ℕ → ℕ) → Allocation → Manager → Type 0
OnlyHere b held a n = (held b ≡ 0) × (count b (fresh_blocks a) ≡ 1) × (stored b n.tree.children ≡ 0)

-- A handle that is out: its table has `need` blocks, `all` and `pinned` are what the handles hold with
-- it, and each of its own new blocks is its alone.
pub record Served (held pins : ℕ → ℕ) (need : ℕ) (a : Allocation) (n : Manager) : Type 0 where
  pub is_ok : a.ok ≡ true
  pub armed : a.owned ≡ true
  pub covers : length a.blocks ≡ need
  pub all : ℕ → ℕ
  pub pinned : ℕ → ℕ
  pub with_fresh : HeldWith a held all
  pub with_pin : PinOf a.pinned pins pinned
  pub serving : Serving all pinned n
  pub alone : (b : ℕ) → 0 < count b (fresh_blocks a) → OnlyHere b held a n

-- With the slots at hand `serve` does not fail.
pub serve-Served :
    {held pins pinned : ℕ → ℕ} {m : Manager} (s : Serving held pinned m) (tokens : List ℕ)
    (a : Allocation) (fresh : ℕ)
    → AllUsed m.pool a.blocks
    → a.cached_blocks ≡ length a.blocks
    → PinOf a.pinned pins pinned
    → fresh + num_away m.pool a.blocks ≤ room m.pool
    → Returns
        (λ (b, n).
          Served held pins (length a.blocks + fresh) b n
          × (n.tree ≡ m.tree)
          × (b.pinned ≡ a.pinned)
          × (take b.cached_blocks b.blocks ≡ a.blocks))
        (serve m tokens a fresh)
unfolding serve
serve-Served {held} {pins} {pinned} {m} s tokens a fresh used cached pin le =
    let ((promoted, p), e, x) =
      promote_all a.blocks m.options.async_promotion m.stats.promoted_blocks s.healthy used
        (omega (arith, le)) in
    let ((bs, q), f, y) = allocate_all fresh a.blocks x.healthy (omega (arith, le, x.slots)) in
    let all : ℕ → ℕ = λ b. held b + count b y.new in
    let steady : Steady all pinned q m.tree =
      Steady-more (Steady-same s.steady p x.healthy.inv x.same) q y.new y.healthy.inv y.counts in
    let stats : Stats = record m.stats {
      promoted_blocks = promoted;
      served = u64 (m.stats.served + 1);
      total_tokens = u64 (m.stats.total_tokens + length tokens);
      hit_tokens = u64 (m.stats.hit_tokens + a.cached_tokens);
    } in
    let before : Serving all pinned (record m { pool = q; stats = stats }) = record {
      healthy = y.healthy;
      steady = steady;
      same_tokens = s.same_tokens;
    } in
    let (n, g, (after, kept)) = maintain-Serving before in
    let new_only : drop a.cached_blocks bs ≡ y.new =
      ap (λ (k : ℕ). drop k bs) cached
      ∙ ap (drop (length a.blocks)) y.behind
      ∙ drop-append a.blocks y.new in
    (
      (record a { ok = true; blocks = bs; owned = true }, n),
      rw e (rw f (rw g refl)),
      (
        record {
          is_ok = refl;
          armed = refl;
          covers =
              ap (length {A = ℕ}) y.behind
              ∙ length-append a.blocks y.new
              ∙ omega (arith, y.as_many);
          all = all;
          pinned = pinned;
          with_fresh = λ b. omega (arith, ap (count b) new_only);
          with_pin = pin;
          serving = after;
          alone = λ b some_b.
              let as_new = ap (count b) new_only in
              let free = y.were_free b (omega (arith, some_b, as_new)) in
              let owned = s.steady.sound.owned b in
              let there = ap (λ (u : Tree). stored b u.children) (maintain-tree _ g) in
              (
                omega (arith, free, owned, x.same b),
                omega (arith, as_new, some_b, y.once b),
                omega (arith, free, owned, x.same b, there),
              );
        },
        maintain-tree _ g,
        refl,
        ap (λ (k : ℕ). take k bs) cached
            ∙ ap (take (length a.blocks)) y.behind
            ∙ take-append a.blocks y.new,
      ),
    )
