-- ===== src/Radix/Evict/Oldest.antt =====
-- `find_lru_leaf` finds the oldest node that may go.
use kvslab.Base.{
  ℕ, ◌≤◌, ◌≡◌, refl, sym, ◌∙◌, ◌≢◌, ◌⊎◌, inl, inr, true, false, Option, none, some, List, [], ◌∷◌,
  arith, ltb, ◌==◌, Bool-cases,
}
use mathlib.Core.Path.{subst}
use kvslab.Radix.State.{Node, Children, end, child, Tree}
use kvslab.Radix.Evict.{no_children, is_rejected, eligible, better, visit, scan, find_lru_leaf}

-- The address is none of these.
abbrev pub NotIn : ℕ → List ℕ → Type 0
NotIn p [] = Unit {0}
NotIn p (q ∷ qs) = (p ≢ q) × NotIn p qs

-- A leaf that is not pinned and not rejected.
abbrev pub MayGo : List ℕ → Node → Children → Type 0
MayGo rejected n end = (n.lock_count ≡ 0) × NotIn n.ptr rejected
MayGo rejected n (child key m below rest) = ⊥

is_rejected-no : (p : ℕ) (qs : List ℕ) → is_rejected p qs ≡ false → NotIn p qs
unfolding is_rejected
is_rejected-no p [] h = tt
is_rejected-no p (q ∷ qs) h = elim (Bool-cases (p == q)) [
  | inl same ↦ absurd (ground arith)
  | inr other ↦ ((λ e. ground arith), is_rejected-no p qs (ground arith))
]

pub NotIn-is_rejected : (p : ℕ) (qs : List ℕ) → NotIn p qs → is_rejected p qs ≡ false
unfolding is_rejected
NotIn-is_rejected p [] h = refl
NotIn-is_rejected p (q ∷ qs) (h, hs) = ground (arith, NotIn-is_rejected p qs hs)

eligible-MayGo :
    (rejected : List ℕ) (n : Node) (below : Children)
    → eligible rejected n below ≡ true
    → MayGo rejected n below
unfolding eligible no_children
eligible-MayGo rejected n end h = (ground arith, is_rejected-no n.ptr rejected (ground arith))
eligible-MayGo rejected n (child key m below rest) h = absurd (ground arith)

MayGo-eligible :
    (rejected : List ℕ) (n : Node) (below : Children)
    → MayGo rejected n below
    → eligible rejected n below ≡ true
unfolding eligible no_children
MayGo-eligible rejected n end (h, k) = ground (arith, h, NotIn-is_rejected n.ptr rejected k)
MayGo-eligible rejected n (child key m below rest) h = absurd h

-- All leaves that may go have the property.
abbrev pub EachEligible : List ℕ → (Node → Type 0) → Children → Type 0
EachEligible rejected P end = Unit {0}
EachEligible rejected P (child key n below rest) =
    (MayGo rejected n below → P n) × EachEligible rejected P below × EachEligible rejected P rest

-- The node is one of these leaves.
abbrev pub IsEligible : List ℕ → Node → Children → Type 0
IsEligible rejected m end = ⊥
IsEligible rejected m (child key n below rest) =
    (MayGo rejected n below × (n ≡ m)) ⊎ (IsEligible rejected m below ⊎ IsEligible rejected m rest)

-- There is a best node, and it has not been touched later than the other.
abbrev pub AtMost : Option Node → Node → Type 0
AtMost none n = ⊥
AtMost (some r) n = r.last_access ≤ n.last_access

EachEligible-mono :
    (rejected : List ℕ) (P Q : Node → Type 0) (kids : Children)
    → ((n : Node) → P n → Q n)
    → EachEligible rejected P kids
    → EachEligible rejected Q kids
EachEligible-mono rejected P Q end f h = tt
EachEligible-mono rejected P Q (child key n below rest) f (h, l, r) = (
  (λ e. f n (h e)),
  EachEligible-mono rejected P Q below f l,
  EachEligible-mono rejected P Q rest f r,
)

better-AtMost : (best : Option Node) (n : Node) → AtMost (better best n) n
unfolding better
better-AtMost none n = omega arith
better-AtMost (some b) n = elim (Bool-cases (ltb n.last_access b.last_access)) [
  | inl y ↦ rw (y, better) (omega arith)
  | inr z ↦ rw (z, better) (ground arith)
]

visit-AtMost :
    (rejected : List ℕ) (best : Option Node) (n : Node) (below : Children) (m : Node)
    → AtMost best m
    → AtMost (visit rejected best n below) m
unfolding visit better
visit-AtMost rejected none n below m h = absurd h
visit-AtMost rejected (some b) n below m h = elim (Bool-cases (eligible rejected n below)) [
  | inr z ↦ rw (z, visit) h
  | inl y ↦ elim (Bool-cases (ltb n.last_access b.last_access)) [
    | inl less ↦ rw (y, less, visit) (ground arith)
    | inr more ↦ rw (y, more, visit) h
  ]
]

scan-AtMost :
    (rejected : List ℕ) (kids : Children) (best : Option Node) (m : Node)
    → AtMost best m
    → AtMost (scan rejected kids best) m
unfolding scan
scan-AtMost rejected end best m h = h
scan-AtMost rejected (child key n below rest) best m h =
    scan-AtMost rejected below _ m (
      visit-AtMost rejected (scan rejected rest best) n below m
        (scan-AtMost rejected rest best m h))

-- No leaf that may go is older than what the scan finds.
scan-EachEligible :
    (rejected : List ℕ) (kids : Children) (best : Option Node)
    → EachEligible rejected (AtMost (scan rejected kids best)) kids
unfolding scan visit
scan-EachEligible rejected end best = tt
scan-EachEligible rejected (child key n below rest) best =
    let first = scan rejected rest best in
    let then_n = visit rejected first n below in
    (
      (λ e.
          scan-AtMost rejected below then_n n
            (rw (MayGo-eligible rejected n below e, visit) (better-AtMost first n))),
      scan-EachEligible rejected below then_n,
      EachEligible-mono rejected (AtMost first) (AtMost (scan rejected below then_n)) rest
          (λ m h. scan-AtMost rejected below then_n m (visit-AtMost rejected first n below m h))
          (scan-EachEligible rejected rest best),
    )

better-from : (best : Option Node) (n m : Node) → better best n ≡ some m → (best ≡ some m) ⊎ (n ≡ m)
unfolding better
better-from none n m h = inr cc
better-from (some b) n m h = elim (Bool-cases (ltb n.last_access b.last_access)) [
  | inl y ↦ let e : better (some b) n ≡ some n = rw (y, better) refl in inr cc
  | inr z ↦ let e : better (some b) n ≡ some b = rw (z, better) refl in inl cc
]

visit-from :
    (rejected : List ℕ) (best : Option Node) (n : Node) (below : Children) (m : Node)
    → visit rejected best n below ≡ some m
    → (best ≡ some m) ⊎ (MayGo rejected n below × (n ≡ m))
unfolding visit
visit-from rejected best n below m h = elim (Bool-cases (eligible rejected n below)) [
  | inr z ↦ let e : visit rejected best n below ≡ best = rw (z, visit) refl in inl cc
  | inl y ↦
      let e : visit rejected best n below ≡ better best n = rw (y, visit) refl in
      elim (better-from best n m (sym e ∙ h)) [
        | inl old ↦ inl old
        | inr new ↦ inr (eligible-MayGo rejected n below y, new)
      ]
]

-- What the scan finds may go, if it was not there before.
scan-from :
    (rejected : List ℕ) (kids : Children) (best : Option Node) (m : Node)
    → scan rejected kids best ≡ some m
    → (best ≡ some m) ⊎ IsEligible rejected m kids
unfolding scan
scan-from rejected end best m h = inl h
scan-from rejected (child key n below rest) best m h = elim (scan-from rejected below _ m h) [
  | inr l ↦ inr (inr (inl l))
  | inl v ↦ elim (visit-from rejected (scan rejected rest best) n below m v) [
    | inr here ↦ inr (inl here)
    | inl w ↦ elim (scan-from rejected rest best m w) [
      | inl old ↦ inl old
      | inr r ↦ inr (inr (inr r))
    ]
  ]
]

-- What `find_lru_leaf` may return: nothing where no leaf may go, and otherwise one that
-- may and has been touched no later than each other.
abbrev pub Chosen : List ℕ → Children → Option Node → Type 0
Chosen rejected kids none = EachEligible rejected (λ _. ⊥) kids
Chosen rejected kids (some m) =
    IsEligible rejected m kids × EachEligible rejected (λ n. m.last_access ≤ n.last_access) kids

-- `find_lru_leaf` returns a leaf that is neither pinned nor rejected and has been touched no later
-- than any other such leaf, and nothing only where there is no such leaf.
pub find_lru_leaf-Chosen :
    (t : Tree) (rejected : List ℕ) → Chosen rejected t.children (find_lru_leaf t rejected)
unfolding find_lru_leaf
find_lru_leaf-Chosen t rejected = go (scan rejected t.children none) refl
  where
    go : (o : Option Node) → scan rejected t.children none ≡ o → Chosen rejected t.children o
    go none e =
        subst (λ (b : Option Node). EachEligible rejected (AtMost b) t.children) e
          (scan-EachEligible rejected t.children none)
    go (some m) e = (
      elim (scan-from rejected t.children none m e) [ inl old ↦ absurd cc | inr found ↦ found ],
      subst (λ (b : Option Node). EachEligible rejected (AtMost b) t.children) e
          (scan-EachEligible rejected t.children none),
    )
