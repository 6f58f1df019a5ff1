-- ===== src/Manager/Handle.antt =====
-- A handle that is dropped or moved gives back what it holds, once.
pub mod Move
use kvslab.Radix.Pin.Same.{NoMore, SameNodes-NoMore}
use kvslab.Base.{
  ℕ, zero, suc, ◌+◌, ◌-◌, ◌*◌, ◌/◌, ◌%◌, ◌^◌, ◌≤◌, ◌<◌, min, ◌≡◌, refl, sym, ap, ◌∙◌, ◌≢◌, ◌↔◌, ◌⊎◌,
  inl, inr, Bool, true, false, ◌&&◌, ◌||◌, not, Option, none, some, List, [], ◌∷◌, ◌++◌, arith, ltb,
  leb, ◌==◌, if◌then◌else◌, u32, u64, sub32, sub64, Bool-cases, Option-cases, length, get_elem?,
  set, take, drop, replicate, is_empty, count, list_eq, length-append, length-set, get_elem?-lt,
  get_elem?_of_lt, get_elem?-set_self, get_elem?-set_ne, get_elem?-set, get_elem?-append_one,
  take-append-drop, length-take, length-drop, length-replicate, list_eq→eq, list_eq_self, Error,
  bad_alloc, invalid_argument, fatal, assertion, undefined, out_of_fuel, Result, ok, err, ◌>>=◌,
  ◌>>◌, guard, at, for_each, at-some, Returns, Returns-bind, Returns-at, bind-inv, at-inv, ok-inj,
  guard-inv,
}
use mathlib.Core.Path.{subst}
use kvslab.Radix.Pin.Anchor.{SameWays, SameNodes-SameWay}
use kvslab.Radix.Steady.{PinOf, unlock-Steady}
use kvslab.Manager.{Manager, Allocation, no_allocation, abandon, abandon_live, destroy}
use kvslab.Manager.Serving.{Serving, HeldWith, drop_fresh-Steady}

-- `abandon` of a handle that is out does not fail, and keeps the invariant for the other handles: the
-- handle's references and its pin are gone, the handle is disarmed, one handle more is counted, for each
-- other pinned node the way to it has the same blocks, and the tree refers to no block more often.
pub abandon-Serving :
    {held all pins pinned : ℕ → ℕ} {m : Manager} (s : Serving all pinned m) (a : Allocation)
    → HeldWith a held all
    → PinOf a.pinned pins pinned
    → Returns
        (λ (b, n).
          Serving held pins n
          × (b ≡ no_allocation)
          × (n.stats.abandoned ≡ u64 (m.stats.abandoned + 1))
          × SameWays pins m.tree n.tree
          × NoMore m.tree.children n.tree.children)
        (abandon m a)
unfolding abandon
abandon-Serving {m} s a e f =
    let (p, g, (h, steady, fewer)) = drop_fresh-Steady s.healthy s.steady a e in
    let (t, i, (k, same, tokens)) = unlock-Steady a.pinned f steady in
    (
      (
        no_allocation,
        record m {
          pool = p;
          tree = t;
          stats = record m.stats { abandoned = u64 (m.stats.abandoned + 1) };
        },
      ),
      rw (g, i) refl,
      (
        record { healthy = h; steady = k; same_tokens = tokens ∙ s.same_tokens },
        refl,
        refl,
        λ q some_pin. SameNodes-SameWay q m.tree.children t.children same,
        SameNodes-NoMore m.tree.children t.children same,
      ),
    )

-- What the handles hold while `a` is one of them: nothing of it where it is not armed.
abbrev pub Holds : Allocation → (ℕ → ℕ) → (ℕ → ℕ) → (ℕ → ℕ) → (ℕ → ℕ) → Type 0
Holds a held all pins pinned =
    if a.ok && a.owned
    then HeldWith a held all × PinOf a.pinned pins pinned
    else (all ≡ held) × (pinned ≡ pins)

pub abandon_live-Serving :
    {held all pins pinned : ℕ → ℕ} {m : Manager} (s : Serving all pinned m) (a : Allocation)
    → Holds a held all pins pinned
    → Returns
        (λ (b, n).
          Serving held pins n
          × SameWays pins m.tree n.tree
          × NoMore m.tree.children n.tree.children)
        (abandon_live m a)
unfolding abandon_live
abandon_live-Serving {held} {all} {pins} {pinned} {m} s a h = elim (Bool-cases (a.ok && a.owned)) [
  | inl live ↦
      let (e, f) = rw live at h in
      let (x, g, k) = abandon-Serving s a e f in (x, rw live g, (k.0, k.3, k.4))
  | inr dead ↦
      let (e, f) = rw dead at h in
      (
        (a, m),
        rw dead refl,
        (
          subst (λ (x : ℕ → ℕ). Serving x pins m) e (subst (λ (x : ℕ → ℕ). Serving all x m) f s),
          λ q some_pin. (refl, λ b. refl),
          λ b. omega arith,
        ),
      )
]

-- The destructor of a handle does not fail and keeps the invariant for the other handles: what the
-- handle held is given back if it was armed, and it held nothing otherwise. For each other pinned node
-- the way to it has the same blocks, and the tree refers to no block more often.
pub destroy-Serving :
    {held all pins pinned : ℕ → ℕ} {m : Manager} (s : Serving all pinned m) (a : Allocation)
    → Holds a held all pins pinned
    → Returns
        (λ n.
          Serving held pins n
          × SameWays pins m.tree n.tree
          × NoMore m.tree.children n.tree.children)
        (destroy m a)
unfolding destroy
destroy-Serving s a h = let ((b, n), e, k) = abandon_live-Serving s a h in (n, rw e refl, k)
