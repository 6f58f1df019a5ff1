-- ===== src/Radix/Pin.antt =====
-- `lock` and `unlock` of RadixTree.
--
-- Both walk from a node up to the root. A model of the map from above goes down to the node and
-- runs the loop's body on the way back. A pointer that no node of the tree has is `undefined`.
pub mod Balance
pub mod Count
pub mod Locked
pub mod Path
pub mod Anchor
pub mod Hold
pub mod Kept
pub mod Same
use kvslab.Base.{
  ℕ, zero, suc, ◌+◌, ◌-◌, ◌*◌, ◌/◌, ◌%◌, ◌^◌, ◌≤◌, ◌<◌, min, ◌≡◌, refl, sym, ap, ◌∙◌, ◌≢◌, ◌↔◌, ◌⊎◌,
  inl, inr, Bool, true, false, ◌&&◌, ◌||◌, not, Option, none, some, List, [], ◌∷◌, ◌++◌, arith, ltb,
  leb, ◌==◌, if◌then◌else◌, u32, u64, sub32, sub64, Bool-cases, Option-cases, length, get_elem?,
  set, take, drop, replicate, is_empty, count, list_eq, length-append, length-set, get_elem?-lt,
  get_elem?_of_lt, get_elem?-set_self, get_elem?-set_ne, get_elem?-set, get_elem?-append_one,
  take-append-drop, length-take, length-drop, length-replicate, list_eq→eq, list_eq_self, Error,
  bad_alloc, invalid_argument, fatal, assertion, undefined, Result, ok, err, ◌>>=◌, ◌>>◌, guard, at,
  for_each, at-some, Returns, Returns-bind, Returns-at,
}
use kvslab.Radix.State.{Node, Children, end, child, Tree}

-- The entry where its node's address is `p`, and the entries where that lies below it.
unfoldable pub has : ℕ → Children → Bool
has p end = false
has p (child key n below rest) = if n.ptr == p then true else has p below || has p rest

-- The entry of a node, with the map that the loop has left below it, or that beside it.
unfoldable pub on_path : (Node → Result Node) → ℕ → Node → Children → Children → Result Children
on_path body key n below rest = do m ← body n; ok (child key m below rest)

-- The loop, from the node with address `p` up to the map.
unfoldable pub climb : (Node → Result Node) → ℕ → Children → Result Children
climb body p end = ok end
climb body p (child key n below rest) =
    let lower = climb body p below in
    let beside = climb body p rest in
    if n.ptr == p
    then on_path body key n below rest
    else if has p below
    then lower >>= (λ b. on_path body key n b rest)
    else beside >>= (λ r. ok (child key n below r))

-- `++n->lock_count`
unfoldable pub pin : Node → Result Node
pin n = ok (record n { lock_count = u32 (n.lock_count + 1) })

unfoldable pub unpin : Node → Result Node
unpin n = do guard (ltb 0 n.lock_count) assertion; ok (record n { lock_count = n.lock_count - 1 })

-- The loop from a pointer, `none` for `nullptr`; the root's address is 0.
unfoldable pub walk_up : (Node → Result Node) → Tree → Option ℕ → Result Tree
walk_up body t none = ok t
walk_up body t (some p) = if p == 0 then ok t else (do
  guard (has p t.children) undefined
  kids ← climb body p t.children
  ok (record t { children = kids }))

unfoldable pub lock : Tree → Option ℕ → Result Tree
lock t node = walk_up pin t node

unfoldable pub unlock : Tree → Option ℕ → Result Tree
unlock t node = walk_up unpin t node
