-- ===== src/Pool/Setup/Start.antt =====
-- A pool that `BlockPool::init` has built meets the invariant of BlockPool.
use kvslab.Base.{
  ℕ, zero, suc, ◌+◌, ◌*◌, ◌^◌, ◌≤◌, ◌<◌, ◌≡◌, refl, some, List, [], ◌∷◌, arith, ltb, if◌then◌else◌,
  u32, u64, length, get_elem?, replicate, length-replicate, ok, Returns,
}
use kvslab.Types.{CacheConfig, block_bytes}
use kvslab.Tier.{Tier, Bytes}
use kvslab.Pool.State.{Location, TierState, Pool, TierSpec}
use kvslab.Pool.Slots.{occupants, reserved, in_use, live, count-push_descending}
use kvslab.Pool.Free.{free_of, size_of, sum_free}
use kvslab.Pool.Inv.{Inv}
use kvslab.Pool.Copy.{Sized}
use kvslab.Pool.Setup.{push_descending, add_tier, add_tiers, start, init}

-- A spec that `init` takes: a tier that holds the blocks, with no product that wraps.
pub record Accepted (cfg : CacheConfig) (spec : TierSpec) : Type 0 where
  pub tier : Tier
  pub given : spec.tier ≡ some tier
  pub room : spec.num_blocks * block_bytes cfg ≤ tier.capacity
  pub size : tier.capacity < 2 ^ 64

abbrev pub AllAccepted : CacheConfig → List TierSpec → Type 0
AllAccepted cfg [] = Unit {0}
AllAccepted cfg (spec ∷ specs) = Accepted cfg spec × AllAccepted cfg specs

abbrev pub block_total : List TierSpec → ℕ
block_total [] = 0
block_total (spec ∷ specs) = spec.num_blocks + block_total specs

length-push_descending : (n : ℕ) (v : List ℕ) → length (push_descending n v) ≡ n + length v
unfolding push_descending
length-push_descending zero v = omega arith
length-push_descending (suc n) v = omega (arith, length-push_descending n (u32 n ∷ v))

-- The tiers that `init` builds: every slot free, once.
record Built (cfg : CacheConfig) (specs : List TierSpec) (tiers : List TierState) (total : ℕ)
    : Type 0 where
  sum : total ≡ block_total specs
  free : (t s : ℕ) → free_of tiers t s ≡ (if ltb s (size_of tiers t) then 1 else 0)
  all_free : sum_free tiers ≡ total
  fits :
      (t : ℕ) (ts : TierState)
      → get_elem? tiers t ≡ some ts
      → (ts.num_blocks * block_bytes cfg ≤ ts.tier.capacity) × (ts.tier.capacity < 2 ^ 64)

abbrev first_tier : (cfg : CacheConfig) (spec : TierSpec) → Accepted cfg spec → TierState
first_tier cfg spec a = record {
  tier = a.tier;
  num_blocks = spec.num_blocks;
  free_slots = push_descending spec.num_blocks [];
}

add_tier-ok :
    (cfg : CacheConfig) (spec : TierSpec) (a : Accepted cfg spec)
    → add_tier cfg spec ≡ ok (first_tier cfg spec a)
unfolding add_tier
add_tier-ok cfg spec a =
    let small : u64 (spec.num_blocks * block_bytes cfg) ≤ a.tier.capacity =
      omega (arith, a.room, a.size) in
    ground (arith, a.given, small)

add_tiers-Built :
    (cfg : CacheConfig) (specs : List TierSpec)
    → AllAccepted cfg specs
    → block_total specs < 2 ^ 32
    → Returns (λ (tiers, total). Built cfg specs tiers total) (add_tiers cfg specs)
unfolding add_tiers free_of size_of sum_free
add_tiers-Built cfg [] a lt = (
  ([], 0),
  refl,
  record { sum = refl; free = λ t s. ground arith; all_free = refl; fits = λ t ts h. cc },
)
add_tiers-Built cfg (spec ∷ specs) (a, rest) lt =
    let ((tiers, total), e, b) = add_tiers-Built cfg specs rest (omega arith) in
    (
      (first_tier cfg spec a ∷ tiers, spec.num_blocks + total),
      ground (arith, add_tier-ok cfg spec a),
      record {
        sum = omega (arith, b.sum);
        free = elim [
          | zero ↦ λ s. ground (arith, count-push_descending s spec.num_blocks [])
          | suc t ↦ b.free t
        ];
        all_free = omega (arith, b.all_free, length-push_descending spec.num_blocks []);
        fits = elim [ zero ↦ λ ts h. ground (arith, a.room, a.size) | suc t ↦ b.fits t ];
      },
    )

occupants-replicate : (t s n : ℕ) (locs : List Location) → occupants t s locs (replicate n 0) ≡ 0
unfolding occupants
occupants-replicate t s n [] = refl
occupants-replicate t s zero (loc ∷ locs) = refl
occupants-replicate t s (suc n) (loc ∷ locs) = omega (arith, occupants-replicate t s n locs)

in_use-replicate : (n i : ℕ) → in_use (get_elem? (replicate n 0) i) ≡ 0
in_use-replicate zero i = refl
in_use-replicate (suc n) zero = refl
in_use-replicate (suc n) (suc i) = in_use-replicate n i

live-replicate : (n : ℕ) → live (replicate n 0) ≡ 0
unfolding live
live-replicate zero = refl
live-replicate (suc n) = omega (arith, live-replicate n)

-- A pool with no copy in flight and no block in use.
abbrev pub Fresh : List TierSpec → Pool → Type 0
Fresh specs p =
    Inv p p.jobs
    × Sized p
    × (p.jobs ≡ [])
    × (p.next_unclaimed ≡ 0)
    × (length p.free_ids ≡ block_total specs)

start-Fresh :
    (threads : ℕ) (raw : Bytes) (cfg : CacheConfig) (specs : List TierSpec) (tiers : List TierState)
    (total : ℕ)
    → Built cfg specs tiers total
    → block_total specs < 2 ^ 32
    → Fresh specs (start threads raw cfg tiers total)
unfolding start reserved
start-Fresh threads raw cfg specs tiers total b lt =
    let n : length {A = ℕ} (replicate total 0) ≡ total = length-replicate total 0 in
    let home : Location = record { tier = 0; slot = 0 } in
    (
      record {
        storage = record {
          sizes = omega (arith, n, length-replicate total home);
          slots = λ t s.
              ground (arith, b.free t s, occupants-replicate t s total (replicate total home));
          ids = λ id.
              ground
                (arith, b.sum, n, in_use-replicate total id, count-push_descending id total []);
          balance = omega (arith, b.all_free, length-push_descending total []);
          population = omega (arith, n, live-replicate total, length-push_descending total []);
          valid_ids = omega (arith, n, b.sum);
        };
        queue = record {
          in_flight = λ i j h c. cc;
          fresh = λ i j h. cc;
          distinct = λ i k x y h. cc;
        };
      },
      record { fits = b.fits },
      refl,
      refl,
      omega (arith, b.sum, length-push_descending total []),
    )

-- `init` on at least one spec, each with a tier that is large enough, and with fewer than 2 ^ 32
-- blocks in all, returns a pool that meets the invariant, whose tiers hold their blocks, that has no
-- job, and whose ids are all free.
pub init-Fresh :
    (threads : ℕ) (raw : Bytes) (spec : TierSpec) (specs : List TierSpec) (cfg : CacheConfig)
    → AllAccepted cfg (spec ∷ specs)
    → block_total (spec ∷ specs) < 2 ^ 32
    → Returns (Fresh (spec ∷ specs)) (init threads raw (spec ∷ specs) cfg)
unfolding init
init-Fresh threads raw spec specs cfg a lt =
    let ((tiers, total), e, b) = add_tiers-Built cfg (spec ∷ specs) a lt in
    (
      start threads raw cfg tiers total,
      rw (e, init) refl,
      start-Fresh threads raw cfg (spec ∷ specs) tiers total b lt,
    )
