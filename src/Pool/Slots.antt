-- ===== src/Pool/Slots.antt =====
-- Who holds a slot: a block that is in use, or a queued copy. Counts of both, and what a change of
-- one vector element does to them.
use kvslab.Base.{
  ℕ, zero, suc, ◌+◌, ◌≤◌, ◌≡◌, refl, ap, ◌≢◌, Option, none, some, List, [], ◌∷◌, ◌++◌, ◌^◌, arith,
  ltb, ◌==◌, if◌then◌else◌, get_elem?, set, count, u32,
}
use kvslab.Pool.State.{Location, Job, set_cancelled}
use kvslab.Pool.Setup.{push_descending}

-- 1 if a block with this location and this count holds slot `s` of tier `t`.
abbrev pub occupies : ℕ → ℕ → Location → ℕ → ℕ
occupies t s loc zero = 0
occupies t s loc (suc r) = if loc.tier == t then (if loc.slot == s then 1 else 0) else 0

unfoldable pub occupants : ℕ → ℕ → List Location → List ℕ → ℕ
occupants t s [] rs = 0
occupants t s (loc ∷ locs) [] = 0
occupants t s (loc ∷ locs) (r ∷ rs) = occupies t s loc r + occupants t s locs rs

abbrev pub reserves : ℕ → ℕ → Job → ℕ
reserves t s j = if j.dst_tier == t then (if j.dst_slot == s then 1 else 0) else 0

unfoldable pub reserved : ℕ → ℕ → List Job → ℕ
reserved t s [] = 0
reserved t s (j ∷ js) = reserves t s j + reserved t s js

-- 1 if the block is in use.
abbrev pub in_use : Option ℕ → ℕ
in_use none = 0
in_use (some zero) = 0
in_use (some (suc r)) = 1

pub occupants-set :
    (t s : ℕ) (locs : List Location) (rs : List ℕ) (i : ℕ) (loc loc' : Location) (r r' : ℕ)
    → get_elem? locs i ≡ some loc
    → get_elem? rs i ≡ some r
    → occupants t s (set locs i loc') (set rs i r') + occupies t s loc r
      ≡ occupants t s locs rs + occupies t s loc' r'
unfolding occupants
occupants-set t s [] rs i loc loc' r r' h k = cc
occupants-set t s (x ∷ locs) [] i loc loc' r r' h k = cc
occupants-set t s (x ∷ locs) (y ∷ rs) zero loc loc' r r' h k = ground arith
occupants-set t s (x ∷ locs) (y ∷ rs) (suc i) loc loc' r r' h k =
    omega (arith, occupants-set t s locs rs i loc loc' r r' h k)

pub set_same {ℓ} :
    {A : Type ℓ} (xs : List A) (i : ℕ) (a : A) → get_elem? xs i ≡ some a → set xs i a ≡ xs
set_same [] i a h = refl
set_same (x ∷ xs) zero a h = ground arith
set_same (x ∷ xs) (suc i) a h = ap (◌∷◌ x) (set_same xs i a h)

pub occupants-le :
    (t s : ℕ) (locs : List Location) (rs : List ℕ) (i : ℕ) (loc : Location) (r : ℕ)
    → get_elem? locs i ≡ some loc
    → get_elem? rs i ≡ some r
    → occupies t s loc r ≤ occupants t s locs rs
unfolding occupants
occupants-le t s [] rs i loc r h k = cc
occupants-le t s (x ∷ locs) [] i loc r h k = cc
occupants-le t s (x ∷ locs) (y ∷ rs) zero loc r h k = ground arith
occupants-le t s (x ∷ locs) (y ∷ rs) (suc i) loc r h k =
    omega (arith, occupants-le t s locs rs i loc r h k)

-- Two blocks in use that share a slot are counted twice.
pub occupants_two :
    (t s : ℕ) (locs : List Location) (rs : List ℕ) (i k : ℕ) (a b : Location) (m n : ℕ)
    → i ≢ k
    → get_elem? locs i ≡ some a
    → get_elem? rs i ≡ some m
    → get_elem? locs k ≡ some b
    → get_elem? rs k ≡ some n
    → occupies t s a m + occupies t s b n ≤ occupants t s locs rs
unfolding occupants
occupants_two t s [] rs i k a b m n d h g h' g' = cc
occupants_two t s (x ∷ locs) [] i k a b m n d h g h' g' = cc
occupants_two t s (x ∷ locs) (y ∷ rs) zero zero a b m n d h g h' g' = absurd (d refl)
occupants_two t s (x ∷ locs) (y ∷ rs) zero (suc k) a b m n d h g h' g' =
    ground (arith, occupants-le t s locs rs k b n)
occupants_two t s (x ∷ locs) (y ∷ rs) (suc i) zero a b m n d h g h' g' =
    ground (arith, occupants-le t s locs rs i a m)
occupants_two t s (x ∷ locs) (y ∷ rs) (suc i) (suc k) a b m n d h g h' g' =
    omega (arith, occupants_two t s locs rs i k a b m n (λ e. d (ap suc e)) h g h' g')

pub reserved-append :
    (t s : ℕ) (js : List Job) (j : Job)
    → reserved t s (js ++ j ∷ []) ≡ reserved t s js + reserves t s j
unfolding reserved
reserved-append t s [] j = omega arith
reserved-append t s (i ∷ js) j = omega (arith, reserved-append t s js j)

-- A cancelled job keeps its slot.
pub reserved-set_cancelled :
    (t s r : ℕ) (js : List Job) → reserved t s (set_cancelled r js) ≡ reserved t s js
unfolding reserved set_cancelled
reserved-set_cancelled t s r [] = refl
reserved-set_cancelled t s r (j ∷ js) = ground (arith, reserved-set_cancelled t s r js)

pub reserved-set :
    (t s : ℕ) (js : List Job) (i : ℕ) (j j' : Job)
    → get_elem? js i ≡ some j
    → reserves t s j' ≡ reserves t s j
    → reserved t s (set js i j') ≡ reserved t s js
unfolding reserved
reserved-set t s [] i j j' h e = refl
reserved-set t s (x ∷ js) zero j j' h e = ground arith
reserved-set t s (x ∷ js) (suc i) j j' h e = omega (arith, reserved-set t s js i j j' h e)

pub reserved-le :
    (t s : ℕ) (js : List Job) (i : ℕ) (j : Job)
    → get_elem? js i ≡ some j
    → reserves t s j ≤ reserved t s js
unfolding reserved
reserved-le t s [] i j h = cc
reserved-le t s (x ∷ js) zero j h = ground arith
reserved-le t s (x ∷ js) (suc i) j h = omega (arith, reserved-le t s js i j h)

-- The descending loop of `init` lists every number below its bound once.
pub count-push_descending :
    (a n : ℕ) (v : List ℕ)
    → n ≤ 2 ^ 32
    → count a (push_descending n v) ≡ (if ltb a n then 1 else 0) + count a v
unfolding push_descending
count-push_descending a zero v h = ground arith
count-push_descending a (suc n) v h = ground (arith, count-push_descending a n (u32 n ∷ v))

-- How many blocks have a reference.
unfoldable pub live : List ℕ → ℕ
live [] = 0
live (r ∷ rs) = in_use (some r) + live rs

pub live-set :
    (rs : List ℕ) (i r d : ℕ)
    → get_elem? rs i ≡ some r
    → live (set rs i d) + in_use (some r) ≡ live rs + in_use (some d)
unfolding live
live-set [] i r d h = cc
live-set (x ∷ rs) zero r d h = ground arith
live-set (x ∷ rs) (suc i) r d h = omega (arith, live-set rs i r d h)
