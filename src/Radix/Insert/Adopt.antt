-- ===== src/Radix/Insert/Adopt.antt =====
-- The references that `insert` takes.
use kvslab.Base.{
  ℕ, zero, suc, ◌+◌, ◌*◌, ◌^◌, ◌≤◌, ◌<◌, ◌≡◌, refl, ◌∙◌, inl, inr, some, List, [], ◌∷◌, arith, ◌==◌,
  if◌then◌else◌, Bool-cases, length, get_elem?, set, take, drop, count, get_elem?-lt,
  get_elem?-set_ne, get_elem?-set, length-take, length-drop, for_each, Returns,
}
use kvslab.Pool.{incref}
use kvslab.Radix.State.{Node, Children, end, child, common, tick}
use kvslab.Radix.Insert.{
  cached, refuse, hang, below_head, insert_inside, insert_through, insert_walk,
}
use kvslab.Pool.State.{Pool}
use kvslab.Pool.Refs.{refs}
use kvslab.Pool.Inv.{Inv}
use kvslab.Pool.Basic.{recount, incref-recount, recount-Storage, recount-Queued}

-- Each block of the list is in use, and its count has room for `room` more.
abbrev pub Held : ℕ → Pool → List ℕ → Type 0
Held room p [] = Unit {0}
Held room p (b ∷ bs) =
    ((c : ℕ) × (get_elem? p.refcount b ≡ some (suc c)) × (suc c + room < 2 ^ 32)) × Held room p bs

Held-recount :
    (p : Pool) (b c room : ℕ) (bs : List ℕ)
    → get_elem? p.refcount b ≡ some (suc c)
    → suc c + suc room < 2 ^ 32
    → Held (suc room) p bs
    → Held room (recount p b (suc (suc c))) bs
Held-recount p b c room [] e lt h = tt
Held-recount p b c room (a ∷ bs) e lt ((d, f, fit), rest) =
    let (d2, g, fit2) : (x : ℕ) × (get_elem? (set p.refcount b (suc (suc c))) a ≡ some (suc x))
        × (suc x + room < 2 ^ 32) =
      elim (Bool-cases (b == a)) [
        | inl same ↦ (
          suc c,
          ground (arith, get_elem?-set p.refcount b a (suc (suc c)), get_elem?-lt p.refcount b e),
          omega arith,
        )
        | inr other ↦
            (d, get_elem?-set_ne p.refcount b a (suc (suc c)) (λ e. ground arith) ∙ f, omega arith)
      ] in
    ((d2, g, fit2), Held-recount p b c room bs e lt rest)

-- The references are as before, and one more for each time that `bs` lists the block.
abbrev pub More : Pool → List ℕ → Pool → Type 0
More p bs q = (k : ℕ) → refs q k ≡ refs p k + count k bs

recount-refs :
    (p : Pool) (b c : ℕ)
    → get_elem? p.refcount b ≡ some (suc c)
    → (k : ℕ) → refs (recount p b (suc (suc c))) k ≡ refs p k + (if b == k then 1 else 0)
recount-refs p b c e k =
    ground (arith, e, get_elem?-set p.refcount b k (suc (suc c)) (get_elem?-lt p.refcount b e))

-- The pools differ in their counts alone.
abbrev pub CountsOnly : Pool → Pool → Type 0
CountsOnly p q = q ≡ record p { refcount = q.refcount }

-- Taking these references does not fail, and keeps the invariant.
pub incref_all-Inv :
    (bs : List ℕ) (p : Pool)
    → Inv p p.jobs
    → Held (length bs) p bs
    → Returns (λ q. Inv q q.jobs × More p bs q × CountsOnly p q) (for_each incref bs p)
incref_all-Inv [] p v h = (p, refl, (v, (λ k. omega arith), refl))
incref_all-Inv (b ∷ bs) p v ((c, e, fit), rest) =
    let q = recount p b (suc (suc c)) in
    let w : Inv q q.jobs = record {
      storage = recount-Storage v.storage b e (suc c);
      queue = recount-Queued v.storage b e (suc c) v.queue;
    } in
    let (r, f, (x, more, only)) =
      incref_all-Inv bs q w (Held-recount p b c (length bs) bs e fit rest) in
    (
      r,
      rw (incref-recount v.storage b e (omega arith)) f,
      (x, (λ k. omega (arith, more k, recount-refs p b c e k)), only),
    )

Held-take : (room k : ℕ) (p : Pool) (bs : List ℕ) → Held room p bs → Held room p (take k bs)
Held-take room zero p bs h = tt
Held-take room (suc k) p [] h = tt
Held-take room (suc k) p (b ∷ bs) h = (h.0, Held-take room k p bs h.1)

Held-drop : (room k : ℕ) (p : Pool) (bs : List ℕ) → Held room p bs → Held room p (drop k bs)
Held-drop room zero p bs h = h
Held-drop room (suc k) p [] h = tt
Held-drop room (suc k) p (b ∷ bs) h = Held-drop room k p bs h.1

Held-less : (room less : ℕ) (p : Pool) (bs : List ℕ) → less ≤ room → Held room p bs → Held less p bs
Held-less room less p [] le h = tt
Held-less room less p (b ∷ bs) le ((c, e, fit), rest) =
    ((c, e, omega arith), Held-less room less p bs le rest)

-- The blocks that the walk adopts are among those that it is given.
abbrev Among : ℕ → Pool → List ℕ → List ℕ → Type 0
Among room p bs adopted = Held room p adopted × (length adopted ≤ length bs)

below_head-Among :
    (room : ℕ) (p : Pool) (bt c fresh : ℕ) (n : Node) (ts bs : List ℕ) (clock : ℕ)
    → Held room p bs
    → Among room p bs (below_head bt c fresh n ts bs clock).adopted
unfolding below_head hang cached refuse
below_head-Among room p bt c fresh n ts bs clock h = ground (arith, h)

walk-Among :
    (room : ℕ) (p : Pool) (bt fresh : ℕ) (kids : Children) (ts bs : List ℕ) (clock : ℕ)
    → Held room p bs
    → Among room p bs (insert_walk bt fresh kids ts bs clock).adopted
unfolding insert_walk hang cached refuse insert_inside insert_through
walk-Among room p bt fresh end ts bs clock h = ground (arith, h)
walk-Among room p bt fresh (child key n below rest) ts bs clock h =
    let c = common bt n ts in
    let h2 = Held-drop room c p bs h in
    let len = length-drop c bs in
    let inside =
      below_head-Among room p bt c (fresh + 1) n (drop (c * bt) ts) (drop c bs) (tick clock) h2 in
    let deeper = walk-Among room p bt fresh below (drop (c * bt) ts) (drop c bs) (tick clock) h2 in
    let beside = walk-Among room p bt fresh rest ts bs clock h in
    ground (arith, len, inside, deeper, beside)

pub adopted-Held :
    (p : Pool) (bt fresh k : ℕ) (kids : Children) (ts bs : List ℕ) (clock : ℕ)
    → Held (length bs) p bs
    → let adopted = (insert_walk bt fresh kids ts (take k bs) clock).adopted in
      Held (length adopted) p adopted
adopted-Held p bt fresh k kids ts bs clock h =
    let (w, le) =
      walk-Among (length bs) p bt fresh kids ts (take k bs) clock
        (Held-take (length bs) k p bs h) in
    Held-less (length bs) _ p _ (omega (arith, le, length-take k bs)) w
