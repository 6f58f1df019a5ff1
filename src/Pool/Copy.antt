-- ===== src/Pool/Copy.antt =====
-- The copy of `migrate`, over the bounce buffer and without it.
use mathlib.Core.Path.{fun_ext}
use kvslab.Base.{
  ℕ, ◌+◌, ◌-◌, ◌*◌, ◌^◌, ◌≤◌, ◌<◌, ◌≡◌, refl, ap, inl, inr, true, false, ◌&&◌, some, arith, u64,
  Bool-cases, get_elem?, ok, Returns,
}
use kvslab.Types.{block_bytes}
use kvslab.Tier.{Tier, Bytes, memcpy, read-ok, write-ok}
use kvslab.Pool.{copy_block}
use kvslab.Pool.State.{TierState, Pool}

-- A tier is as large as the blocks it was given for, and its offsets are `size_t` values.
pub record Sized (p : Pool) : Type 0 where
  pub fits :
      (t : ℕ) (ts : TierState)
      → get_elem? p.tiers t ≡ some ts
      → (ts.num_blocks * block_bytes p.cfg ≤ ts.tier.capacity) × (ts.tier.capacity < 2 ^ 64)

-- Two `memcpy`s through a buffer are one.
pub memcpy-memcpy :
    (n : ℕ) (dst : Bytes) (dst_off : ℕ) (buffer src : Bytes) (src_off : ℕ)
    → memcpy n dst dst_off (memcpy n buffer 0 src src_off) 0 ≡ memcpy n dst dst_off src src_off
unfolding memcpy
memcpy-memcpy n dst dst_off buffer src src_off = fun_ext λ i.
    let inner : src_off + (0 + (i - dst_off) - 0) ≡ src_off + (i - dst_off) = omega arith in
    ground (arith, ap src inner)

pub slot_end : (slot n b : ℕ) → slot < n → slot * b + b ≤ n * b
slot_end slot n b h = grind arith

-- The bytes of a slot of the tier stay inside its arena, and their offset does not wrap.
pub slot-fits :
    (slot n b cap : ℕ)
    → slot < n
    → n * b ≤ cap
    → cap < 2 ^ 64
    → (u64 (slot * b) ≡ slot * b) × (u64 (slot * b + b) ≤ cap) × (slot * b + b ≤ cap)
slot-fits slot n b cap h k c =
    let e = slot_end slot n b h in (omega arith, omega arith, omega arith)

-- The two paths of the copy, at offsets in range.
module _ (p : Pool) (src : Tier) (i : ℕ) (dst : Tier) (k : ℕ)
    (si : u64 (i * block_bytes p.cfg) ≡ i * block_bytes p.cfg)
    (sk : u64 (k * block_bytes p.cfg) ≡ k * block_bytes p.cfg) where
  abbrev b : ℕ
  b = block_bytes p.cfg

  copy_direct :
      (src.addressable && dst.addressable) ≡ true
      → copy_block p src i dst k
        ≡ ok (p.bounce, record dst { arena = memcpy b dst.arena (k * b) src.arena (i * b) })
  unfolding copy_block
  copy_direct e = rw (e, copy_block, si, sk) refl

  copy_bounced :
      (src.addressable && dst.addressable) ≡ false
      → u64 (i * b + b) ≤ src.capacity
      → u64 (k * b + b) ≤ dst.capacity
      → let bounce = memcpy b p.bounce 0 src.arena (i * b) in
        copy_block p src i dst k
        ≡ ok (bounce, record dst { arena = memcpy b dst.arena (k * b) bounce 0 })
  unfolding copy_block
  copy_bounced e l m =
      rw
        (
          e,
          copy_block,
          si,
          sk,
          read-ok src (i * b) p.bounce b l,
          write-ok dst (k * b) (memcpy b p.bounce 0 src.arena (i * b)) b m,
        )
        refl

-- Between tiers that are as large as their blocks, and at slots in range, the copy of `migrate` does
-- not fail, and with or without the bounce buffer it is one `memcpy` of the block's bytes from slot
-- to slot.
pub copy_block_lem :
    (p : Pool) (src : Tier) (i : ℕ) (dst : Tier) (k m n : ℕ)
    → i < m
    → m * block_bytes p.cfg ≤ src.capacity
    → src.capacity < 2 ^ 64
    → k < n
    → n * block_bytes p.cfg ≤ dst.capacity
    → dst.capacity < 2 ^ 64
    → Returns
        (λ (b, t). t ≡ record dst {
          arena =
              memcpy
                (block_bytes p.cfg)
                dst.arena
                (k * block_bytes p.cfg)
                src.arena
                (i * block_bytes p.cfg);
        })
        (copy_block p src i dst k)
copy_block_lem p src i dst k m n hi hm hs hk hn hd =
    let b = block_bytes p.cfg in
    let (si, li, ci) = slot-fits i m b src.capacity hi hm hs in
    let (sk, lk, ck) = slot-fits k n b dst.capacity hk hn hd in
    elim (Bool-cases (src.addressable && dst.addressable)) [
      | inl e ↦ ((p.bounce, _), copy_direct p src i dst k si sk e, refl)
      | inr e ↦ (
        _,
        copy_bounced p src i dst k si sk e li lk,
        ap (λ (a : Bytes). record dst { arena = a })
            (memcpy-memcpy b dst.arena (k * b) p.bounce src.arena (i * b)),
      )
    ]
