-- ===== src/Pool/Free.antt =====
-- The free lists of the tiers, as counts.
use kvslab.Base.{
  ℕ, zero, suc, ◌+◌, ◌≤◌, ◌<◌, ◌≡◌, refl, Option, none, some, List, [], ◌∷◌, arith, ◌==◌,
  if◌then◌else◌, length, get_elem?, set, count, get_elem?-set, get_elem?-lt,
}
use kvslab.Pool.State.{TierState}

abbrev free_in : Option TierState → ℕ → ℕ
free_in none s = 0
free_in (some ts) s = count s ts.free_slots

abbrev size_in : Option TierState → ℕ
size_in none = 0
size_in (some ts) = ts.num_blocks

-- How often slot `s` is on the free list of tier `t`, and how many slots the tier has. A tier out of
-- range has none.
unfoldable pub free_of : List TierState → ℕ → ℕ → ℕ
free_of tiers t s = free_in (get_elem? tiers t) s

unfoldable pub size_of : List TierState → ℕ → ℕ
size_of tiers t = size_in (get_elem? tiers t)

unfoldable pub sum_free : List TierState → ℕ
sum_free [] = 0
sum_free (ts ∷ tiers) = length ts.free_slots + sum_free tiers

module _ (tiers : List TierState) (t : ℕ) (ts : TierState) (h : get_elem? tiers t ≡ some ts) where
  pub free_of-some : (s : ℕ) → free_of tiers t s ≡ count s ts.free_slots
  unfolding free_of
  free_of-some s = rw h

  pub size_of-some : size_of tiers t ≡ ts.num_blocks
  unfolding size_of
  size_of-some = rw h

  -- Also where the tier's own bytes change.
  pub free_of-set :
      (new : TierState) (u s : ℕ)
      → free_of (set tiers t new) u s
        ≡ (if t == u then count s new.free_slots else free_of tiers u s)
  unfolding free_of
  free_of-set new u s = ground (arith, get_elem?-set tiers t u new, get_elem?-lt tiers t h)

  pub size_of-set :
      (new : TierState) (u : ℕ)
      → new.num_blocks ≡ ts.num_blocks
      → size_of (set tiers t new) u ≡ size_of tiers u
  unfolding size_of
  size_of-set new u e = ground (arith, get_elem?-set tiers t u new, get_elem?-lt tiers t h)

pub sum_free-set :
    (tiers : List TierState) (t : ℕ) (ts new : TierState)
    → get_elem? tiers t ≡ some ts
    → sum_free (set tiers t new) + length ts.free_slots ≡ sum_free tiers + length new.free_slots
unfolding sum_free
sum_free-set [] t ts new h = cc
sum_free-set (x ∷ tiers) zero ts new h = ground arith
sum_free-set (x ∷ tiers) (suc t) ts new h = omega (arith, sum_free-set tiers t ts new h)

pub length-le-sum_free :
    (tiers : List TierState) (t : ℕ) (ts : TierState)
    → get_elem? tiers t ≡ some ts
    → length ts.free_slots ≤ sum_free tiers
unfolding sum_free
length-le-sum_free [] t ts h = cc
length-le-sum_free (x ∷ tiers) zero ts h = ground arith
length-le-sum_free (x ∷ tiers) (suc t) ts h = omega (arith, length-le-sum_free tiers t ts h)

-- A tier that has slots is in range.
pub size_of-pos :
    (tiers : List TierState) (t : ℕ)
    → 0 < size_of tiers t
    → (ts : TierState) × (get_elem? tiers t ≡ some ts)
unfolding size_of
size_of-pos [] t h = absurd (omega arith)
size_of-pos (x ∷ tiers) zero h = (x, refl)
size_of-pos (x ∷ tiers) (suc t) h = size_of-pos tiers t h
