-- ===== src/Radix/Sound.antt =====
-- A tree of RadixTree together with the pool that its blocks are from.
pub mod Steps
use kvslab.Base.{
  ℕ, zero, suc, ◌+◌, ◌-◌, ◌*◌, ◌/◌, ◌%◌, ◌^◌, ◌≤◌, ◌<◌, min, ◌≡◌, refl, sym, ap, ◌∙◌, ◌≢◌, ◌↔◌, ◌⊎◌,
  inl, inr, Bool, true, false, ◌&&◌, ◌||◌, not, Option, none, some, List, [], ◌∷◌, ◌++◌, arith, ltb,
  leb, ◌==◌, if◌then◌else◌, u32, u64, sub32, sub64, Bool-cases, Option-cases, length, get_elem?,
  set, take, drop, replicate, is_empty, count, list_eq, length-append, length-set, get_elem?-lt,
  get_elem?_of_lt, get_elem?-set_self, get_elem?-set_ne, get_elem?-set, get_elem?-append_one,
  take-append-drop, length-take, length-drop, length-replicate, list_eq→eq, list_eq_self, Error,
  bad_alloc, invalid_argument, fatal, assertion, undefined, out_of_fuel, Result, ok, err, ◌>>=◌,
  ◌>>◌, guard, at, for_each, at-some, Returns, Returns-bind, Returns-at,
}
use kvslab.Pool.State.{Pool, Job}
use kvslab.Pool.Inv.{Inv}
use kvslab.Pool.Refs.{refs}
use kvslab.Radix.State.{Node, Children, end, child, Tree}
use kvslab.Radix.WellFormed.{WellFormed, stored}

-- Each reference to a block is one of the tree's, or one of the `held b` that others have.
abbrev pub Owned : Pool → Children → (ℕ → ℕ) → Type 0
Owned p kids held = (b : ℕ) → refs p b ≡ stored b kids + held b

-- The pool and the tree are each well-formed, and account for each reference.
pub record Sound (held : ℕ → ℕ) (p : Pool) (t : Tree) : Type 0 where
  pub pool : Inv p p.jobs
  pub formed : WellFormed t.block_tokens t.next_ptr t.children
  pub owned : Owned p t.children held
  pub some_tokens : 0 < t.block_tokens
