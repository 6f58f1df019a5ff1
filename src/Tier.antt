-- ===== src/Tier.antt =====
-- include/kvslab/tier.hpp and src/tier.cpp. An arena is a function from byte offsets to bytes.
use kvslab.Base.{
  ℕ, ◌+◌, ◌-◌, ◌*◌, ◌/◌, ◌≤◌, ◌≡◌, Bool, true, false, ◌&&◌, Option, none, some, arith, ltb, leb,
  ◌==◌, if◌then◌else◌, u64, sub64, bad_alloc, assertion, Result, ok, err, ◌>>◌, guard,
}

abbrev pub Bytes : Type 0
Bytes = ℕ → ℕ

-- `addressable`: `host_data()` is not null.
pub record Tier : Type 0 where
  pub capacity : ℕ
  pub addressable : Bool
  pub arena : Bytes

-- `memcpy(dst + dst_off, src + src_off, n)`
unfoldable pub memcpy : ℕ → Bytes → ℕ → Bytes → ℕ → Bytes
memcpy n dst dst_off src src_off i =
    if leb dst_off i && ltb i (dst_off + n) then src (src_off + (i - dst_off)) else dst i

abbrev pub arena_alignment : ℕ
arena_alignment = 4096

pub round_up : ℕ → ℕ → ℕ
round_up value multiple = u64 (sub64 (u64 (value + multiple)) 1 / multiple * multiple)

-- The constructor of HostTier. `memory` is what `std::aligned_alloc` returns: nothing, or an arena
-- with whatever bytes it holds. A tier of no bytes allocates nothing and has no address.
pub host_tier : ℕ → Option Bytes → Result Tier
unfolding round_up
host_tier bytes memory =
    let capacity = round_up bytes arena_alignment in
    if capacity == 0
    then ok (record { capacity = 0; addressable = false; arena = λ i. 0 })
    else elim memory [
      | none ↦ err bad_alloc
      | some raw ↦ ok (record { capacity = capacity; addressable = true; arena = raw })
    ]

-- A read into the buffer `dst`, and a write from the buffer `src`.
unfoldable pub read : Tier → ℕ → Bytes → ℕ → Result Bytes
read t offset dst bytes =
    guard (leb (u64 (offset + bytes)) t.capacity) assertion
    >> ok (memcpy bytes dst 0 t.arena offset)

unfoldable pub write : Tier → ℕ → Bytes → ℕ → Result Tier
write t offset src bytes =
    guard (leb (u64 (offset + bytes)) t.capacity) assertion
    >> ok (record t { arena = memcpy bytes t.arena offset src 0 })

-- Inside the tier both succeed.
pub read-ok :
    (t : Tier) (offset : ℕ) (dst : Bytes) (bytes : ℕ)
    → u64 (offset + bytes) ≤ t.capacity
    → read t offset dst bytes ≡ ok (memcpy bytes dst 0 t.arena offset)
unfolding read
read-ok t offset dst bytes h = ground arith

pub write-ok :
    (t : Tier) (offset : ℕ) (src : Bytes) (bytes : ℕ)
    → u64 (offset + bytes) ≤ t.capacity
    → write t offset src bytes ≡ ok (record t { arena = memcpy bytes t.arena offset src 0 })
unfolding write
write-ok t offset src bytes h = ground arith
