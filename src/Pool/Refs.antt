-- ===== src/Pool/Refs.antt =====
-- The references to blocks, as a function of the block, and how runs of `decref` change it.
use kvslab.Base.{
  ℕ, suc, ◌+◌, ◌-◌, ◌≤◌, ◌<◌, ◌≡◌, ap, ◌∙◌, Option, none, some, List, ◌∷◌, arith, ◌==◌,
  if◌then◌else◌, length, get_elem?, set, count, get_elem?-lt, get_elem?-set, ok, Returns,
}
use kvslab.Pool.{decref, refcount_of, block_tier, locate}
use kvslab.Pool.Basic.{used_location}
use kvslab.Pool.State.{Pool, Job}
use kvslab.Pool.Inv.{Inv, Storage}
use kvslab.Pool.Release.{decref-Inv}

-- A block that is out of range has no reference.
abbrev pub or_zero : Option ℕ → ℕ
or_zero none = 0
or_zero (some c) = c

abbrev pub refs : Pool → ℕ → ℕ
refs p b = or_zero (get_elem? p.refcount b)

pub refs-some : (o : Option ℕ) (c : ℕ) → or_zero o ≡ suc c → o ≡ some (suc c)
refs-some none c h = absurd (omega arith)
refs-some (some d) c h = ap some h

-- `refcount` of a block with a reference.
pub refcount_of-refs :
    {p : Pool} {js : List Job} (v : Storage p js) (b : ℕ)
    → 0 < refs p b
    → refcount_of p b ≡ ok (refs p b)
unfolding refcount_of
refcount_of-refs {p} v b h =
    let e : get_elem? p.refcount b ≡ some (suc (refs p b - 1)) =
      refs-some (get_elem? p.refcount b) (refs p b - 1) (omega arith) in
    let range : b < length p.location = omega (arith, get_elem?-lt p.refcount b e, v.sizes) in
    ground (arith, e, range)

-- After a `decref` of `b` each count is as before, but for one reference to `b`.
abbrev pub OneLess : Pool → ℕ → Pool → Type 0
OneLess p b q = (k : ℕ) → refs q k + (if b == k then 1 else 0) ≡ refs p k

pub set-OneLess :
    (p q : Pool) (b c : ℕ)
    → get_elem? p.refcount b ≡ some (suc c)
    → q.refcount ≡ set p.refcount b c
    → OneLess p b q
set-OneLess p q b c h e k = ground (
  arith,
  h,
  e,
  get_elem?-set p.refcount b k c (get_elem?-lt p.refcount b h),
  ap (λ (rs : List ℕ). get_elem? rs k) e,
)

-- `decref` of a block with a reference.
pub decref-OneLess :
    {p : Pool} (v : Inv p p.jobs) (b : ℕ)
    → 0 < refs p b
    → Returns (λ (freed, q). Inv q q.jobs × OneLess p b q × (freed ≡ (refs p b == 1))) (decref p b)
decref-OneLess {p} v b h =
    let c = refs p b - 1 in
    let e : get_elem? p.refcount b ≡ some (suc c) =
      refs-some (get_elem? p.refcount b) c (omega arith) in
    let ((freed, q), f, (w, g, l)) = decref-Inv v b c e in
    ((freed, q), f, (w, set-OneLess p q b c e l, g ∙ ground arith))

-- The references are as before, but for those that `bs` lists, one for each time.
abbrev pub Fewer : Pool → List ℕ → Pool → Type 0
Fewer p bs q = (k : ℕ) → refs q k + count k bs ≡ refs p k

-- `bs` lists no block more often than it has references.
abbrev pub Covered : Pool → List ℕ → Type 0
Covered p bs = (k : ℕ) → count k bs ≤ refs p k

pub Covered-head : (p : Pool) (b : ℕ) (bs : List ℕ) → Covered p (b ∷ bs) → 0 < refs p b
Covered-head p b bs h = ground (arith, h b)

pub Covered-tail :
    (p q : Pool) (b : ℕ) (bs : List ℕ) → Covered p (b ∷ bs) → OneLess p b q → Covered q bs
Covered-tail p q b bs h one k = omega (arith, h k, one k)

pub Fewer-cons :
    (p q r : Pool) (b : ℕ) (bs : List ℕ) → OneLess p b q → Fewer q bs r → Fewer p (b ∷ bs) r
Fewer-cons p q r b bs one f k = omega (arith, one k, f k)

-- `block_tier` of a block with a reference.
pub block_tier-some :
    {p : Pool} {js : List Job} (v : Storage p js) (b : ℕ)
    → 0 < refs p b
    → (tier : ℕ) × (block_tier p b ≡ ok tier)
unfolding block_tier locate
block_tier-some {p} v b h =
    let e : get_elem? p.refcount b ≡ some (suc (refs p b - 1)) =
      refs-some (get_elem? p.refcount b) (refs p b - 1) (omega arith) in
    let (loc, l) = used_location v b e in
    (loc.tier, ground (arith, e, l, get_elem?-lt p.location b l))
