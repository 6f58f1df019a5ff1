-- ===== src/Radix/Evict/Drop.antt =====
-- `tree_is_sole_owner` and `drop_leaf`: the blocks of a leaf that only the tree holds are freed.
use kvslab.Base.{
  ℕ, ◌+◌, ◌<◌, ◌≡◌, refl, sym, ap, ◌∙◌, inl, inr, true, false, List, [], ◌∷◌, arith, ◌==◌, sub64,
  Bool-cases, length, count, for_each, Returns,
}
use kvslab.Pool.State.{Pool}
use kvslab.Pool.Inv.{Inv}
use kvslab.Pool.Refs.{
  refs, decref-OneLess, refcount_of-refs, Fewer, Covered, Covered-head, Covered-tail, Fewer-cons,
}
use kvslab.Radix.State.{Node, Tree, first_key}
use kvslab.Radix.Sound.{Sound}
use kvslab.Radix.Evict.{sole_owner, count_freed, drop_leaf, erase_node}
use kvslab.Radix.Evict.Oldest.{IsEligible}
use kvslab.Radix.Evict.Removal.{Removes, erase_node-Removes, Removes-stored, Removes-WellFormed}

-- Each of these blocks has one reference.
abbrev pub Single : Pool → List ℕ → Type 0
Single p bs = (k : ℕ) → 0 < count k bs → refs p k ≡ 1

-- For blocks with references the test does not fail, and says whether each has one.
pub sole_owner-Single :
    {p : Pool} (v : Inv p p.jobs) (bs : List ℕ)
    → ((k : ℕ) → 0 < count k bs → 0 < refs p k)
    → Returns (λ sole. sole ≡ true → Single p bs) (sole_owner p bs)
unfolding sole_owner
sole_owner-Single v [] h = (true, refl, λ e k c. absurd (omega arith))
sole_owner-Single {p} v (b ∷ bs) h =
    let count_of = refcount_of-refs v.storage b (h b (ground arith)) in
    let (sole, f, w) = sole_owner-Single v bs (λ k c. h k (omega arith)) in
    elim (Bool-cases (refs p b == 1)) [
      | inr more ↦ (false, rw (count_of, more) refl, λ n. absurd cc)
      | inl one ↦ (sole, rw (count_of, one, f) refl, λ y k c. single k (w y k) (ground arith) c)
    ]
  where
    single :
        (k : ℕ)
        → (0 < count k bs → refs p k ≡ 1)
        → refs p b ≡ 1
        → 0 < count k (b ∷ bs)
        → refs p k ≡ 1
    single k rest one c = elim (Bool-cases (b == k)) [
      | inl same ↦ let e : b ≡ k = ground arith in ap (refs p) (sym e) ∙ one
      | inr other ↦ rest (ground arith)
    ]

count_freed-all :
    (bs : List ℕ) {p : Pool} (v : Inv p p.jobs) (freed : ℕ)
    → Covered p bs
    → Single p bs
    → Returns
        (λ (f, q). Inv q q.jobs × Fewer p bs q × (f ≡ freed + length bs))
        (for_each count_freed bs (freed, p))
unfolding count_freed
count_freed-all [] {p} v freed h s = ((freed, p), refl, (v, (λ k. omega arith), omega arith))
count_freed-all (b ∷ bs) {p} v freed h s =
    let ((gone, q), e, (w, one, g)) = decref-OneLess v b (Covered-head p b bs h) in
    let only : refs p b ≡ 1 = s b (ground arith) in
    let gone_now : gone ≡ true = g ∙ ground (arith, only) in
    let rest = Covered-tail p q b bs h one in
    let single : Single q bs = λ k c. ground (arith, s k, one k, rest k) in
    let ((f, r), i, (x, fewer, len)) = count_freed-all bs w (freed + 1) rest single in
    ((f, r), rw (e, gone_now, for_each) i, (x, Fewer-cons p q r b bs one fewer, omega (arith, len)))

-- What `drop_leaf` leaves: the tree without the leaf, and the pool without its blocks, which are
-- counted.
pub record Dropped (held : ℕ → ℕ) (t : Tree) (v : Node) (freed : ℕ) (q : Pool) (u : Tree)
    : Type 0 where
  pub sound : Sound held q u
  pub removes : Removes v t.children u.children
  pub freed_all : freed ≡ length v.blocks
  pub same_tokens : u.block_tokens ≡ t.block_tokens
  pub same_next : u.next_ptr ≡ t.next_ptr

pub drop_leaf-Dropped :
    {held : ℕ → ℕ} {p : Pool} {t : Tree} (s : Sound held p t) (rejected : List ℕ) (v : Node)
    → IsEligible rejected v t.children
    → Single p v.blocks
    → Returns (λ (freed, q, u). Dropped held t v freed q u) (drop_leaf p t v)
unfolding drop_leaf
drop_leaf-Dropped {held} {p} {t} s rejected v h single =
    let kids = t.children in
    let r = erase_node-Removes t.block_tokens t.next_ptr rejected v kids s.formed h in
    let covered : Covered p v.blocks = λ k. omega (arith, s.owned k, Removes-stored k r) in
    let ((f, q), e, (w, fewer, len)) = count_freed-all v.blocks s.pool 0 covered single in
    (
      (
        f,
        q,
        record t {
          children = erase_node v.ptr (first_key t.block_tokens v.tokens) kids;
          stored_blocks = sub64 t.stored_blocks (length v.blocks);
          num_nodes = sub64 t.num_nodes 1;
        },
      ),
      rw e refl,
      record {
        sound = record {
          pool = w;
          formed = Removes-WellFormed t.block_tokens t.next_ptr r s.formed;
          owned = λ k. omega (arith, s.owned k, Removes-stored k r, fewer k);
          some_tokens = s.some_tokens;
        };
        removes = r;
        freed_all = omega (arith, len);
        same_tokens = refl;
        same_next = refl;
      },
    )
