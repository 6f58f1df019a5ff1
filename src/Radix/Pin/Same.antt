-- ===== src/Radix/Pin/Same.antt =====
-- What `lock` and `unlock` leave as it was: all but the counts.
use kvslab.Base.{ℕ, ◌*◌, ◌≤◌, ◌≡◌, refl, sym, ap, ◌∙◌, List, arith, length, count}
use mathlib.Core.Path.{subst}
use kvslab.Radix.State.{Children, end, child, first_key}
use kvslab.Radix.Entries.{Aligned}
use kvslab.Radix.WellFormed.{nodes_at, stored, NoKey, Keyed, WellFormed}
use kvslab.Radix.Pin.Count.{SameNodes}

pub SameNodes-nodes_at :
    (p : ℕ) (kids after : Children) → SameNodes kids after → nodes_at p after ≡ nodes_at p kids
unfolding nodes_at
SameNodes-nodes_at p end end h = refl
SameNodes-nodes_at p end (child key n below rest) h = absurd h
SameNodes-nodes_at p (child key n below rest) end h = absurd h
SameNodes-nodes_at p (child key n below rest) (child key2 m below2 rest2) (e, f, g, i, l, r) =
    ground (arith, f, SameNodes-nodes_at p below below2 l, SameNodes-nodes_at p rest rest2 r)

-- The map refers to no block more often than the other.
abbrev pub NoMore : Children → Children → Type 0
NoMore kids after = (b : ℕ) → stored b after ≤ stored b kids

pub SameNodes-stored :
    (b : ℕ) (kids after : Children) → SameNodes kids after → stored b after ≡ stored b kids
unfolding stored
SameNodes-stored b end end h = refl
SameNodes-stored b end (child key n below rest) h = absurd h
SameNodes-stored b (child key n below rest) end h = absurd h
SameNodes-stored b (child key n below rest) (child key2 m below2 rest2) (e, f, g, i, l, r) =
    omega
      (arith, ap (count b) i, SameNodes-stored b below below2 l, SameNodes-stored b rest rest2 r)

SameNodes-Aligned :
    (bt : ℕ) (kids after : Children) → SameNodes kids after → Aligned bt kids → Aligned bt after
SameNodes-Aligned bt end end h a = tt
SameNodes-Aligned bt end (child key n below rest) h a = absurd h
SameNodes-Aligned bt (child key n below rest) end h a = absurd h
SameNodes-Aligned bt (child key n below rest) (child key2 m below2 rest2) (e, f, g, i, l, r)
      (a, s, al, ar) =
    (
      ap (length {A = ℕ}) g ∙ a ∙ ap (λ (bs : List ℕ). length bs * bt) (sym i),
      omega (arith, s, ap (length {A = ℕ}) i),
      SameNodes-Aligned bt below below2 l al,
      SameNodes-Aligned bt rest rest2 r ar,
    )

SameNodes-NoKey :
    (k : ℕ) (kids after : Children) → SameNodes kids after → NoKey k kids → NoKey k after
SameNodes-NoKey k end end h a = tt
SameNodes-NoKey k end (child key n below rest) h a = absurd h
SameNodes-NoKey k (child key n below rest) end h a = absurd h
SameNodes-NoKey k (child key n below rest) (child key2 m below2 rest2) (e, f, g, i, l, r) (ne, a) =
    ((λ q. ne (q ∙ e)), SameNodes-NoKey k rest rest2 r a)

SameNodes-Keyed :
    (bt : ℕ) (kids after : Children) → SameNodes kids after → Keyed bt kids → Keyed bt after
SameNodes-Keyed bt end end h a = tt
SameNodes-Keyed bt end (child key n below rest) h a = absurd h
SameNodes-Keyed bt (child key n below rest) end h a = absurd h
SameNodes-Keyed bt (child key n below rest) (child key2 m below2 rest2) (e, f, g, i, l, r)
      (k, no_key, kl, kr) =
    (
      e ∙ k ∙ ap (first_key bt) (sym g),
      subst (λ (x : ℕ). NoKey x rest2) (sym e) (SameNodes-NoKey key rest rest2 r no_key),
      SameNodes-Keyed bt below below2 l kl,
      SameNodes-Keyed bt rest rest2 r kr,
    )

pub SameNodes-WellFormed :
    (bt next : ℕ) (kids after : Children)
    → SameNodes kids after
    → WellFormed bt next kids
    → WellFormed bt next after
SameNodes-WellFormed bt next kids after h w = record {
  started = w.started;
  aligned = SameNodes-Aligned bt kids after h w.aligned;
  keyed = SameNodes-Keyed bt kids after h w.keyed;
  distinct = λ p. omega (arith, w.distinct p, SameNodes-nodes_at p kids after h);
  unused = λ p le. omega (arith, w.unused p le, SameNodes-nodes_at p kids after h);
  not_root = omega (arith, w.not_root, SameNodes-nodes_at 0 kids after h);
}

pub SameNodes-NoMore : (kids after : Children) → SameNodes kids after → NoMore kids after
SameNodes-NoMore kids after h = λ b. omega (arith, SameNodes-stored b kids after h)
