-- ===== src/Radix/Match/Runs.antt =====
-- The runs of the entries of a map: where they start and where they end.
use kvslab.Base.{
  ℕ, zero, suc, ◌+◌, ◌-◌, ◌*◌, ◌/◌, ◌≤◌, ◌<◌, min, ◌≡◌, refl, sym, ap, ◌∙◌, ◌≢◌, ◌⊎◌, inl, inr,
  List, [], ◌∷◌, ◌++◌, arith, length, take, drop, length-append, length-take, list_eq_self,
}
use mathlib.Core.Path.{subst}
use mathlib.Core.List.{append_assoc}
use kvslab.Types.{block_key}
use kvslab.Radix.State.{Node, Children, end, child, first_key, common, common_blocks}
use kvslab.Radix.Entries.{
  Entry, entries, expand, In, take-add, take-take_add, drop-take_add, Aligned,
}
use kvslab.Radix.WellFormed.{NoKey, Keyed}
use kvslab.Radix.Insert.Limit.{mul-le}
use kvslab.Radix.Match.Found.{common-le, take_all}

In-append : (e : Entry) (xs ys : List Entry) → In e (xs ++ ys) → In e xs ⊎ In e ys
In-append e [] ys h = inr h
In-append e (x ∷ xs) ys (inl h) = inl (inl h)
In-append e (x ∷ xs) ys (inr h) = elim (In-append e xs ys h) [ inl l ↦ inl (inr l) | inr r ↦ inr r ]

pub append-cancel : (path xs ys : List ℕ) → path ++ xs ≡ path ++ ys → xs ≡ ys
append-cancel [] xs ys e = e
append-cancel (p ∷ path) xs ys e = append-cancel path xs ys (ap (λ (zs : List ℕ). drop 1 zs) e)

-- The run of an entry ends after some blocks of the node.
expand-run :
    (bt : ℕ) (path ts bs : List ℕ) (e : Entry)
    → In e (expand bt path ts bs)
    → (k : ℕ) × (k < length bs) × (e.0 ≡ path ++ take (suc k * bt) ts)
unfolding expand
expand-run bt path ts [] e h = absurd h
expand-run bt path ts (b ∷ bs) e (inl h) =
    let one : 1 * bt ≡ bt = omega arith in
    (0, omega arith, ap (λ (x : Entry). x.0) h ∙ ap (λ (k : ℕ). path ++ take k ts) (sym one))
expand-run bt path ts (b ∷ bs) e (inr h) =
    let (k, lt, run) = expand-run bt (path ++ take bt ts) (drop bt ts) bs e h in
    let s : suc (suc k) * bt ≡ bt + suc k * bt = omega arith in
    (
      suc k,
      omega arith,
      run
          ∙ append_assoc path (take bt ts) (take (suc k * bt) (drop bt ts))
          ∙ ap (◌++◌ path) (sym (take-add bt (suc k * bt) ts))
          ∙ ap (λ (j : ℕ). path ++ take j ts) (sym s),
    )

-- Equal runs of blocks are counted.
common_blocks-ge :
    (bt k max : ℕ) (xs ys : List ℕ)
    → k ≤ max
    → take (k * bt) xs ≡ take (k * bt) ys
    → k ≤ common_blocks bt max xs ys
unfolding common_blocks
common_blocks-ge bt zero max xs ys le e = omega arith
common_blocks-ge bt (suc k) zero xs ys le e = absurd (omega arith)
common_blocks-ge bt (suc k) (suc max) xs ys le e =
    let s : suc k * bt ≡ bt + k * bt = omega arith in
    let f : take (bt + k * bt) xs ≡ take (bt + k * bt) ys =
      subst (λ (j : ℕ). take j xs ≡ take j ys) s e in
    let front : take bt xs ≡ take bt ys =
      sym (take-take_add bt (k * bt) xs) ∙ ap (take bt) f ∙ take-take_add bt (k * bt) ys in
    let back : take (k * bt) (drop bt xs) ≡ take (k * bt) (drop bt ys) =
      sym (drop-take_add bt (k * bt) xs) ∙ ap (drop bt) f ∙ drop-take_add bt (k * bt) ys in
    rw (front, list_eq_self (take bt ys))
      (omega (arith, common_blocks-ge bt k max (drop bt xs) (drop bt ys) (omega arith) back))

-- An entry of a map starts, behind `path`, with a whole block, and that block's key is in the map.
abbrev Starts : ℕ → List ℕ → Children → Entry → Type 0
Starts bt path kids e =
    (x : List ℕ) × (e.0 ≡ path ++ x)
    × (bt ≤ length x)
    × ((k : ℕ) → NoKey k kids → k ≢ first_key bt x)

-- An entry of a node and of what is below it: it ends in the node, or below it.
abbrev pub Own : ℕ → List ℕ → Node → Children → Entry → Type 0
Own bt path n below e =
    ((k : ℕ) × (k < length n.blocks) × (e.0 ≡ path ++ take (suc k * bt) n.tokens))
    ⊎ In e (entries bt (path ++ n.tokens) below)

pub entries-cases :
    (bt key : ℕ) (path : List ℕ) (n : Node) (below rest : Children) (e : Entry)
    → In e (entries bt path (child key n below rest))
    → Own bt path n below e ⊎ In e (entries bt path rest)
unfolding entries
entries-cases bt key path n below rest e h =
    elim (In-append e (expand bt path n.tokens n.blocks)
      (entries bt (path ++ n.tokens) below ++ entries bt path rest) h) [
        | inl here ↦ inl (inl (expand-run bt path n.tokens n.blocks e here))
        | inr other ↦
            elim (In-append e (entries bt (path ++ n.tokens) below) (entries bt path rest) other) [
              | inl deeper ↦ inl (inr deeper)
              | inr beside ↦ inr beside
            ]
      ]

block_le : (bt k len : ℕ) → k < len → bt ≤ min (suc k * bt) (len * bt)
block_le bt k len h = grind arith

some_len : (bt len : ℕ) → 0 < len → bt ≤ len * bt
some_len bt len h = grind arith

pub take-front : (bt m : ℕ) (xs : List ℕ) → bt ≤ m → take bt (take m xs) ≡ take bt xs
take-front bt m xs le =
    let e : m ≡ bt + (m - bt) = omega arith in
    ap (λ (k : ℕ). take bt (take k xs)) e ∙ take-take_add bt (m - bt) xs

front_of : (xs ys : List ℕ) (k : ℕ) → k ≤ length xs → take k (xs ++ ys) ≡ take k xs
front_of xs ys zero le = refl
front_of [] ys (suc k) le = absurd (omega arith)
front_of (x ∷ xs) ys (suc k) le = ap (◌∷◌ x) (front_of xs ys k (omega arith))

-- The run of such an entry has the first block of the node.
pub starts_at_node :
    (bt : ℕ) (path : List ℕ) (n : Node) (below : Children) (e : Entry)
    → length n.tokens ≡ length n.blocks * bt
    → 0 < length n.blocks
    → (In e (entries bt (path ++ n.tokens) below) → (y : List ℕ) × (e.0 ≡ (path ++ n.tokens) ++ y))
    → Own bt path n below e
    → (x : List ℕ) × (e.0 ≡ path ++ x) × (bt ≤ length x) × (take bt x ≡ take bt n.tokens)
starts_at_node bt path n below e a some_block deeper (inl (k, lt, run)) = (
  take (suc k * bt) n.tokens,
  run,
  omega (arith, length-take (suc k * bt) n.tokens, a, block_le bt k (length n.blocks) lt),
  take-front bt (suc k * bt) n.tokens (omega (arith, block_le bt k (length n.blocks) lt)),
)
starts_at_node bt path n below e a some_block deeper (inr h) =
    let (y, run) = deeper h in
    let long = some_len bt (length n.blocks) some_block in
    (
      n.tokens ++ y,
      run ∙ append_assoc path n.tokens y,
      omega (arith, length-append n.tokens y, a, long),
      front_of n.tokens y bt (omega (arith, a, long)),
    )

pub entries-Starts :
    (bt : ℕ) (path : List ℕ) (kids : Children) (e : Entry)
    → Aligned bt kids
    → Keyed bt kids
    → In e (entries bt path kids)
    → Starts bt path kids e
unfolding first_key entries
entries-Starts bt path end e a kd h = absurd h
entries-Starts bt path (child key n below rest) e (a, some_block, al, ar) (kd, absent, kl, kr) h =
    let own = starts_at_node bt path n below e a some_block (λ g.
      let (y, run, long, other) = entries-Starts bt (path ++ n.tokens) below e al kl g in
      (y, run)) in
    let beside = entries-Starts bt path rest e ar kr in
    elim (entries-cases bt key path n below rest e h) [
      | inl here ↦
          let (x, run, long, front) = own here in
          (x, run, long, λ k (ne, no_key) f. ne (f ∙ ap block_key front ∙ sym kd))
      | inr there ↦
          let (x, run, long, other) = beside there in
          (x, run, long, λ k (ne, no_key). other k no_key)
    ]

blocks_fit : (bt k len : ℕ) → 0 < bt → k * bt ≤ len → k ≤ len / bt
blocks_fit bt k len some_tokens le = grind arith

-- As many blocks as the runs share are counted.
common-ge :
    (bt k : ℕ) (n : Node) (ts : List ℕ)
    → 0 < bt
    → k ≤ length n.blocks
    → k * bt ≤ length ts
    → take (k * bt) n.tokens ≡ take (k * bt) ts
    → k ≤ common bt n ts
unfolding common
common-ge bt k n ts some_tokens le fit e =
    let room = blocks_fit bt k (length ts) some_tokens fit in
    common_blocks-ge bt k (min (length n.blocks) (length ts / bt)) n.tokens ts
      (omega (arith, le, room)) e

module _ (bt : ℕ) (path : List ℕ) (n : Node) (below : Children) (ts : List ℕ) (some_tokens : 0 < bt)
    (a : length n.tokens ≡ length n.blocks * bt) where
  -- The cached prefix ends in the node.
  pub ends_here :
      (m k : ℕ)
      → m ≤ length ts
      → k < length n.blocks
      → path ++ take m ts ≡ path ++ take (suc k * bt) n.tokens
      → (m ≡ suc k * bt) × (suc k ≤ common bt n ts)
  ends_here m k le lt e =
      let same = append-cancel path (take m ts) (take (suc k * bt) n.tokens) e in
      let fit : suc k * bt ≤ length n.blocks * bt =
        mul-le (suc k) (length n.blocks) bt (omega arith) in
      let len : m ≡ suc k * bt = omega (
        arith,
        ap (length {A = ℕ}) same,
        length-take m ts,
        length-take (suc k * bt) n.tokens,
        fit,
        a,
        le,
      ) in
      (
        len,
        common-ge bt (suc k) n ts some_tokens (omega arith) (omega (arith, len, le))
            (sym same ∙ ap (λ (j : ℕ). take j ts) len),
      )

  -- It ends below the node.
  pub ends_below :
      (m : ℕ) (y : List ℕ)
      → m ≤ length ts
      → path ++ take m ts ≡ (path ++ n.tokens) ++ y
      → (common bt n ts ≡ length n.blocks)
        × (length n.blocks * bt ≤ m)
        × (path ++ take m ts
            ≡ (path ++ n.tokens) ++ take (m - length n.blocks * bt) (drop (common bt n ts * bt) ts))
  ends_below m y le e =
      let l = length n.blocks in
      let same =
        append-cancel path (take m ts) (n.tokens ++ y) (e ∙ append_assoc path n.tokens y) in
      let long : l * bt ≤ m =
        omega (arith, ap (length {A = ℕ}) same, length-take m ts, length-append n.tokens y, a) in
      let cut : m ≡ l * bt + (m - l * bt) = omega (arith, long) in
      let front : take (l * bt) ts ≡ n.tokens =
        sym (take-front (l * bt) m ts long)
        ∙ ap (take (l * bt)) same
        ∙ front_of n.tokens y (l * bt) (omega (arith, a))
        ∙ take_all n.tokens (l * bt) (omega (arith, a)) in
      let most = (common-le bt n ts).0 in
      let least =
        common-ge bt l n ts some_tokens (omega arith) (omega (arith, long, le))
          (take_all n.tokens (l * bt) (omega (arith, a)) ∙ sym front) in
      let all : common bt n ts ≡ l = omega (arith, most, least) in
      (
        all,
        long,
        ap (λ (j : ℕ). path ++ take j ts) cut
            ∙ ap (◌++◌ path) (take-add (l * bt) (m - l * bt) ts)
            ∙ sym (append_assoc path (take (l * bt) ts) (take (m - l * bt) (drop (l * bt) ts)))
            ∙ ap (λ (zs : List ℕ). (path ++ zs) ++ take (m - l * bt) (drop (l * bt) ts)) front
            ∙ ap (λ (j : ℕ). (path ++ n.tokens) ++ take (m - l * bt) (drop (j * bt) ts)) (sym all),
      )
