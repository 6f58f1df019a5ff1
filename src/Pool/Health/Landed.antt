-- ===== src/Pool/Health/Landed.antt =====
-- Where `drain_migrations` leaves the blocks: those of finished copies are in their new slots and no
-- longer on their way, and all others are where they were.
use kvslab.Base.{
  ℕ, ◌≡◌, refl, sym, ap, ◌∙◌, ◌⊎◌, inl, inr, false, none, some, List, [], ◌∷◌, arith, ◌==◌,
  if◌then◌else◌, Bool-cases, get_elem?,
}
use kvslab.Pool.State.{Job, Pool, find, erase}
use kvslab.Pool.Inv.{Inv}
use kvslab.Pool.Health.{Mapped}
use kvslab.Pool.Health.Untouched.{Untouched}

-- The block is in its new slot, and not on its way.
abbrev pub IsHome : Job → Pool → Type 0
IsHome j q =
    (get_elem? q.location j.id ≡ some (record { tier = j.dst_tier; slot = j.dst_slot }))
    × (find j.id q.migrating ≡ none)

-- The block is one of a finished copy that is not cancelled.
abbrev pub Moves : ℕ → List Job → Type 0
Moves b [] = ⊥
Moves b (j ∷ js) = ((j.cancelled ≡ false) × (j.id ≡ b)) ⊎ Moves b js

-- Each copy that is not cancelled has brought its block home.
abbrev pub AllHome : List Job → Pool → Type 0
AllHome [] q = Unit {0}
AllHome (j ∷ js) q = (if j.cancelled then Unit {0} else IsHome j q) × AllHome js q

pub find-erase_self :
    (js : List Job) (id : ℕ) (m : List (ℕ × ℕ)) → Mapped js m → find id (erase id m) ≡ none
unfolding find erase
find-erase_self js id [] w = refl
find-erase_self js id ((k, r) ∷ m) (e, d, w) = elim (Bool-cases (k == id)) [
  | inl same ↦
      let f : k ≡ id = ground arith in rw (same, erase) (ap (λ (x : ℕ). find x m) (sym f) ∙ d)
  | inr other ↦ rw (other, erase) (ground (arith, find-erase_self js id m w))
]

-- What one settled job does to the blocks.
record One (p : Pool) (j : Job) (js : List Job) (q : Pool) : Type 0 where
  mapped : Mapped js q.migrating
  home : if j.cancelled then Unit {0} else IsHome j q
  others : (b : ℕ) → Untouched b p q ⊎ ((j.cancelled ≡ false) × (j.id ≡ b))

-- What a run of settled jobs does to the blocks.
pub record Landed (p : Pool) (fs : List Job) (q : Pool) : Type 0 where
  pub home : AllHome fs q
  pub others : (b : ℕ) → Untouched b p q ⊎ Moves b fs
