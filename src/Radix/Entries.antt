-- ===== src/Radix/Entries.antt =====
-- What a tree caches, with no regard to how its nodes are cut: each cached run of whole blocks, from
-- the start of a sequence, with the block that holds the last of them.
use mathlib.Core.List.{append-nil, append_assoc}
use kvslab.Base.{
  ℕ, zero, suc, ◌+◌, ◌*◌, ◌<◌, ◌≡◌, refl, sym, ap, ◌∙◌, ◌⊎◌, inl, inr, List, [], ◌∷◌, ◌++◌, arith,
  length, take, drop, take-append-drop,
}
use kvslab.Radix.State.{Node, Children, end, child, split_node, split_head, split_tail}

abbrev pub Entry : Type 0
Entry = List ℕ × ℕ

-- The entries of a run of tokens with its blocks, behind `path`.
unfoldable pub expand : ℕ → List ℕ → List ℕ → List ℕ → List Entry
expand bt path ts [] = []
expand bt path ts (b ∷ bs) =
    (path ++ take bt ts, b) ∷ expand bt (path ++ take bt ts) (drop bt ts) bs

unfoldable pub entries : ℕ → List ℕ → Children → List Entry
entries bt path end = []
entries bt path (child key n below rest) =
    expand bt path n.tokens n.blocks
    ++ (entries bt (path ++ n.tokens) below ++ entries bt path rest)

abbrev pub In : Entry → List Entry → Type 0
In e [] = ⊥
In e (x ∷ xs) = (e ≡ x) ⊎ In e xs

abbrev pub AllIn : List Entry → List Entry → Type 0
AllIn [] es = Unit {0}
AllIn (x ∷ xs) es = In x es × AllIn xs es

pub In-append_left : (e : Entry) (xs ys : List Entry) → In e xs → In e (xs ++ ys)
In-append_left e [] ys h = absurd h
In-append_left e (x ∷ xs) ys (inl h) = inl h
In-append_left e (x ∷ xs) ys (inr h) = inr (In-append_left e xs ys h)

pub In-append_right : (e : Entry) (xs ys : List Entry) → In e ys → In e (xs ++ ys)
In-append_right e [] ys h = h
In-append_right e (x ∷ xs) ys h = inr (In-append_right e xs ys h)

pub AllIn-append_left : (zs xs ys : List Entry) → AllIn zs xs → AllIn zs (xs ++ ys)
AllIn-append_left [] xs ys h = tt
AllIn-append_left (z ∷ zs) xs ys h = (In-append_left z xs ys h.0, AllIn-append_left zs xs ys h.1)

pub AllIn-append_right : (zs xs ys : List Entry) → AllIn zs ys → AllIn zs (xs ++ ys)
AllIn-append_right [] xs ys h = tt
AllIn-append_right (z ∷ zs) xs ys h = (In-append_right z xs ys h.0, AllIn-append_right zs xs ys h.1)

pub AllIn-append : (xs ys es : List Entry) → AllIn xs es → AllIn ys es → AllIn (xs ++ ys) es
AllIn-append [] ys es h k = k
AllIn-append (x ∷ xs) ys es h k = (h.0, AllIn-append xs ys es h.1 k)

pub AllIn-self : (xs : List Entry) → AllIn xs xs
AllIn-self [] = tt
AllIn-self (x ∷ xs) = (inl refl, AllIn-append_right xs (x ∷ []) xs (AllIn-self xs))

module _ {ℓ} {A : Type ℓ} where
  pub take-nil : (n : ℕ) → take {A = A} n [] ≡ []
  take-nil zero = refl
  take-nil (suc n) = refl

  pub drop-nil : (n : ℕ) → drop {A = A} n [] ≡ []
  drop-nil zero = refl
  drop-nil (suc n) = refl

  pub take-add : (m n : ℕ) (xs : List A) → take (m + n) xs ≡ take m xs ++ take n (drop m xs)
  take-add zero n xs = ap (λ (k : ℕ). take k xs) (omega arith)
  take-add (suc m) n [] = take-nil (suc m + n) ∙ sym (take-nil n)
  take-add (suc m) n (x ∷ xs) =
      let e : suc m + n ≡ suc (m + n) = omega arith in rw e (ap (◌∷◌ x) (take-add m n xs))

  pub drop-add : (m n : ℕ) (xs : List A) → drop (m + n) xs ≡ drop n (drop m xs)
  drop-add zero n xs = ap (λ (k : ℕ). drop k xs) (omega arith)
  drop-add (suc m) n [] = drop-nil (suc m + n) ∙ sym (drop-nil n)
  drop-add (suc m) n (x ∷ xs) =
      let e : suc m + n ≡ suc (m + n) = omega arith in rw e (drop-add m n xs)

  pub take-take_add : (m n : ℕ) (xs : List A) → take m (take (m + n) xs) ≡ take m xs
  take-take_add zero n xs = refl
  take-take_add (suc m) n [] = ap (take (suc m)) (take-nil (suc m + n))
  take-take_add (suc m) n (x ∷ xs) =
      let e : suc m + n ≡ suc (m + n) = omega arith in rw e (ap (◌∷◌ x) (take-take_add m n xs))

  pub drop-take_add : (m n : ℕ) (xs : List A) → drop m (take (m + n) xs) ≡ take n (drop m xs)
  drop-take_add zero n xs = ap (λ (k : ℕ). take k xs) (omega arith)
  drop-take_add (suc m) n [] = ap (drop (suc m)) (take-nil (suc m + n)) ∙ sym (take-nil n)
  drop-take_add (suc m) n (x ∷ xs) =
      let e : suc m + n ≡ suc (m + n) = omega arith in rw e (drop-take_add m n xs)

-- A run cut after `c` blocks has the entries of its two parts.
pub expand-split :
    (bt c : ℕ) (path ts bs : List ℕ)
    → expand bt path ts bs
      ≡ expand bt path (take (c * bt) ts) (take c bs)
        ++ expand bt (path ++ take (c * bt) ts) (drop (c * bt) ts) (drop c bs)
unfolding expand
expand-split bt zero path ts bs = let e : 0 * bt ≡ 0 = omega arith in rw (e, append-nil path) refl
expand-split bt (suc c) path ts [] = refl
expand-split bt (suc c) path ts (b ∷ bs) =
    let e : suc c * bt ≡ bt + c * bt = omega arith in
    let front = path ++ take bt ts in
    let joined : path ++ take (bt + c * bt) ts ≡ front ++ take (c * bt) (drop bt ts) =
      ap (◌++◌ path) (take-add bt (c * bt) ts)
      ∙ sym (append_assoc path (take bt ts) (take (c * bt) (drop bt ts))) in
    rw
      (
        e,
        take-take_add bt (c * bt) ts,
        drop-take_add bt (c * bt) ts,
        drop-add bt (c * bt) ts,
        joined,
      )
      (ap (◌∷◌ (front, b)) (expand-split bt c front (drop bt ts) bs))

-- `split_node` leaves what is cached as it was.
pub entries-split_node :
    (bt c fresh now : ℕ) (path : List ℕ) (key : ℕ) (n : Node) (below rest : Children)
    → entries bt path (split_node bt c fresh now n below end rest)
      ≡ entries bt path (child key n below rest)
unfolding entries split_node split_head split_tail
entries-split_node bt c fresh now path key n below rest =
    let h = take (c * bt) n.tokens in
    let t = drop (c * bt) n.tokens in
    let whole : (path ++ h) ++ t ≡ path ++ n.tokens =
      append_assoc path h t ∙ ap (◌++◌ path) (take-append-drop (c * bt) n.tokens) in
    rw
      (
        whole,
        expand-split bt c path n.tokens n.blocks,
        append-nil (entries bt (path ++ n.tokens) below),
      )
      (simp append_assoc)

pub expand-append :
    (bt : ℕ) (path ts front bs : List ℕ)
    → expand bt path ts (front ++ bs)
      ≡ expand bt path ts front
        ++ expand bt (path ++ take (length front * bt) ts) (drop (length front * bt) ts) bs
unfolding expand
expand-append bt path ts [] bs = let e : 0 * bt ≡ 0 = omega arith in rw (e, append-nil path) refl
expand-append bt path ts (a ∷ front) bs =
    let x = length front * bt in
    let e : suc (length front) * bt ≡ bt + x = omega arith in
    let next = path ++ take bt ts in
    let joined : path ++ take (bt + x) ts ≡ next ++ take x (drop bt ts) =
      ap (◌++◌ path) (take-add bt x ts)
      ∙ sym (append_assoc path (take bt ts) (take x (drop bt ts))) in
    rw (e, drop-add bt x ts, joined)
      (ap (◌∷◌ (next, a)) (expand-append bt next (drop bt ts) front bs))

-- Each node holds whole blocks, at least one, and as many block ids.
abbrev pub Aligned : ℕ → Children → Type 0
Aligned bt end = Unit {0}
Aligned bt (child key n below rest) =
    (length n.tokens ≡ length n.blocks * bt)
    × (0 < length n.blocks)
    × Aligned bt below
    × Aligned bt rest
