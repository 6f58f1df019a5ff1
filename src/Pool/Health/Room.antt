-- ===== src/Pool/Health/Room.antt =====
-- The free slots of the compute tier, and the blocks that need one of them.
use kvslab.Base.{
  ℕ, ◌+◌, ◌<◌, ◌≡◌, refl, sym, ap, ◌∙◌, ◌≢◌, ◌⊎◌, inl, inr, Bool, true, false, ◌&&◌, ◌||◌, not,
  Option, none, some, List, [], ◌∷◌, arith, ltb, ◌==◌, if◌then◌else◌, Bool-cases, length, get_elem?,
  set, count, get_elem?-lt, get_elem?_of_lt, get_elem?-set_self, get_elem?-set_ne, get_elem?-set,
  fatal, Result, ok, at, Returns, bind-inv, at-inv, ok-inj, guard-inv,
}
use kvslab.Types.{invalid_block}
use kvslab.Pool.{
  locate, num_free, allocate, grant, cancel_migration, migrate, move_located, move_block,
  copy_block, rebind, migrating?,
}
use kvslab.Pool.State.{Location, TierState, Pool, find, is_some, put_free}
use kvslab.Pool.Basic.{free_id, allocate-grant, grant-Inv, used_location}
use kvslab.Pool.Free.{length-le-sum_free}
use kvslab.Pool.Cancel.{cancel-SameStore}
use kvslab.Pool.Refs.{refs, or_zero}
use kvslab.Pool.Queue.{migrate_async, async_located, try_enqueue, enqueue, ensure_worker}
use kvslab.Pool.Health.{Healthy, SameTiers-set}
use kvslab.Pool.Health.Steps.{Healthy-tiers}
use kvslab.Pool.Health.Queries.{num_free-Healthy}
use kvslab.Pool.Health.Untouched.{Untouched}

abbrev pub slots_of : Option TierState → ℕ
slots_of none = 0
slots_of (some ts) = length ts.free_slots

-- How many slots of the compute tier are free.
abbrev pub room : Pool → ℕ
room p = slots_of (get_elem? p.tiers 0)

pub num_free-room : {p : Pool} (h : Healthy p) → num_free p ≡ ok (room p)
num_free-room {p} h =
    let (ts, g, e) = num_free-Healthy h in
    e ∙ ap (λ (o : Option TierState). ok (slots_of o)) (sym g)

abbrev pub elsewhere : Option Location → Bool
elsewhere none = false
elsewhere (some loc) = not (loc.tier == 0)

-- The block is in another tier, and no copy of it is on its way.
abbrev pub away : Pool → ℕ → Bool
away p b = elsewhere (get_elem? p.location b) && not (migrating? p b)

pub away-Untouched : {b : ℕ} {p q : Pool} → Untouched b p q → away q b ≡ away p b
unfolding migrating?
away-Untouched u = rw (u.location, u.moving) refl

abbrev pub num_away : Pool → List ℕ → ℕ
num_away p [] = 0
num_away p (b ∷ bs) = (if away p b then 1 else 0) + num_away p bs

pub num_away-Untouched :
    (p q : Pool) (bs : List ℕ)
    → ((b : ℕ) → 0 < count b bs → Untouched b p q)
    → num_away q bs ≡ num_away p bs
num_away-Untouched p q [] u = refl
num_away-Untouched p q (b ∷ bs) u =
    let head : away q b ≡ away p b = away-Untouched (u b (ground arith)) in
    let tail = num_away-Untouched p q bs (λ k some_k. u k (ground arith)) in rw (head, tail) refl

-- The tier of a block that is not away, and that of one that is.
pub away-tier :
    (p : Pool) (b : ℕ) (loc : Location)
    → get_elem? p.location b ≡ some loc
    → away p b ≡ (not (loc.tier == 0) && not (migrating? p b))
away-tier p b loc l = ap (λ (o : Option Location). elsewhere o && not (migrating? p b)) l

locate-inv :
    (p : Pool) (id : ℕ) {loc : Location} → locate p id ≡ ok loc → get_elem? p.location id ≡ some loc
unfolding locate
locate-inv p id e =
    let r = guard-inv (ltb id (length p.location)) fatal _ e in
    let (c, f, r2) = bind-inv (at p.refcount id) _ r in
    at-inv p.location id (guard-inv (not (c == 0)) fatal _ r2)

-- A move into the compute tier takes one of its slots.
move_located-room :
    (m : Pool) (id : ℕ) (loc : Location) {q : Pool}
    → loc.tier ≢ 0
    → move_located m id 0 loc ≡ ok (true, q)
    → room q + 1 ≡ room m
unfolding move_located move_block rebind put_free
move_located-room m id loc {q} ne h =
    let away_from : (loc.tier == 0) ≡ false = ground arith in
    let (old, e, r) = bind-inv (at m.tiers 0) _ (rw (away_from, move_located) at h) in
    by_slot old (at-inv m.tiers 0 e) old.free_slots refl r
  where
    by_slot :
        (old : TierState)
        → get_elem? m.tiers 0 ≡ some old
        → (free : List ℕ) → old.free_slots ≡ free
        → ◌≡◌ {A = Result (Bool × Pool)}
            (elim free [ [] ↦ ok (false, m) | slot ∷ rest ↦ move_block m id 0 loc old slot rest ])
            (ok (true, q))
        → room q + 1 ≡ room m
    by_slot old k [] f g = absurd (not_moved g)
      where
        not_moved : ◌≡◌ {A = Result (Bool × Pool)} (ok (false, m)) (ok (true, q)) → ⊥
        not_moved e = let b : false ≡ true = ap (λ (x : Bool × Pool). x.0) (ok-inj e) in cc
    by_slot old k (slot ∷ rest) f g =
        let (src, e, g2) = bind-inv (at m.tiers loc.tier) _ g in
        let ((bounce, t), i, g3) = bind-inv (copy_block m src.tier loc.slot old.tier slot) _ g2 in
        let new : TierState = record old { tier = t; free_slots = rest } in
        let all : List TierState =
          set (set m.tiers 0 new) loc.tier
            (record src { free_slots = loc.slot ∷ src.free_slots }) in
        let tiers : all ≡ q.tiers = ap (λ (x : Bool × Pool). x.1.tiers) (ok-inj g3) in
        let at_zero : get_elem? all 0 ≡ some new =
          get_elem?-set_ne (set m.tiers 0 new) loc.tier 0 _ ne
          ∙ get_elem?-set_self m.tiers 0 new (get_elem?-lt m.tiers 0 k) in
        let before : room m ≡ length old.free_slots = ap slots_of k in
        let after : room q ≡ length rest =
          ap (λ (ts : List TierState). slots_of (get_elem? ts 0)) (sym tiers)
          ∙ ap slots_of at_zero in
        omega (arith, before, after, ap (length {A = ℕ}) f)

pub migrate-room :
    (p : Pool) (id : ℕ) (loc : Location) {q : Pool}
    → get_elem? p.location id ≡ some loc
    → loc.tier ≢ 0
    → migrate p id 0 ≡ ok (true, q)
    → room q + 1 ≡ room p
unfolding migrate
migrate-room p id loc {q} l ne h =
    let m = cancel_migration p id in
    let s = cancel-SameStore p id in
    let (found, e, r1) = bind-inv (locate m id) _ h in
    let r2 = guard-inv (ltb 0 (length m.tiers)) fatal _ r1 in
    let here : some found ≡ some loc =
      sym (locate-inv m id e) ∙ ap (λ (ls : List Location). get_elem? ls id) s.location ∙ l in
    let same : found ≡ loc = cc in
    let ne2 : found.tier ≢ 0 = λ z. ne (ap (λ (x : Location). x.tier) (sym same) ∙ z) in
    move_located-room m id found ne2 r2
    ∙ ap (λ (ts : List TierState). slots_of (get_elem? ts 0)) s.tiers

find-head : (k r : ℕ) (m : List (ℕ × ℕ)) → is_some (find k ((k, r) ∷ m)) ≡ true
unfolding find is_some
find-head k r m = ground arith

abbrev pub AsyncOutcome : Pool → ℕ → Bool → Pool → Type 0
AsyncOutcome p id started q =
    ((started ≡ true) × (room q + 1 ≡ room p) × (migrating? q id ≡ true))
    ⊎ ((started ≡ false) × (q ≡ p))

-- `migrate_async` to the compute tier starts a copy, with a slot for it, or changes nothing.
pub migrate_async-room :
    (p : Pool) (id : ℕ) {started : Bool} {q : Pool}
    → migrate_async p id 0 ≡ ok (started, q)
    → AsyncOutcome p id started q
unfolding migrate_async async_located try_enqueue enqueue ensure_worker put_free migrating? find
    is_some
migrate_async-room p id {started} {q} h =
    let (loc, f, r1) = bind-inv (locate p id) _ h in
    let r2 = guard-inv (ltb 0 (length p.tiers)) fatal _ r1 in
    elim (Bool-cases (loc.tier == 0 || migrating? p id)) [
      | inl stays ↦ same (rw (stays, async_located) at r2)
      | inr goes ↦
          let (ts, g, r3) = bind-inv (at p.tiers 0) _ (rw (goes, async_located) at r2) in
          by_slot loc ts (at-inv p.tiers 0 g) ts.free_slots refl r3
    ]
  where
    same :
        ◌≡◌ {A = Result (Bool × Pool)} (ok (false, p)) (ok (started, q))
        → AsyncOutcome p id started q
    same e =
        let f = ok-inj e in
        inr (sym (ap (λ (x : Bool × Pool). x.0) f), sym (ap (λ (x : Bool × Pool). x.1) f))

    by_slot :
        (loc : Location) (ts : TierState)
        → get_elem? p.tiers 0 ≡ some ts
        → (free : List ℕ) → ts.free_slots ≡ free
        → ◌≡◌ {A = Result (Bool × Pool)}
            (elim free [ [] ↦ ok (false, p) | slot ∷ rest ↦ try_enqueue p id 0 loc ts slot rest ])
            (ok (started, q))
        → AsyncOutcome p id started q
    by_slot loc ts k [] f e = same e
    by_slot loc ts k (slot ∷ rest) f e =
        let (src, i, g) = bind-inv (at p.tiers loc.tier) _ e in
        elim (Bool-cases (src.tier.addressable && ts.tier.addressable)) [
          | inr shut ↦ same (rw shut at g)
          | inl open_tiers ↦
              let x = ok-inj (rw open_tiers at g) in
              let tiers : set p.tiers 0 (record ts { free_slots = rest }) ≡ q.tiers =
                ap (λ (y : Bool × Pool). y.1.tiers) x in
              let entries : ((id, p.next_ref) ∷ p.migrating) ≡ q.migrating =
                ap (λ (y : Bool × Pool). y.1.migrating) x in
              let at_zero =
                get_elem?-set_self p.tiers 0 (record ts { free_slots = rest })
                  (get_elem?-lt p.tiers 0 k) in
              let before : room p ≡ length ts.free_slots = ap slots_of k in
              let after : room q ≡ length rest =
                ap (λ (ts : List TierState). slots_of (get_elem? ts 0)) (sym tiers)
                ∙ ap slots_of at_zero in
              inl (
                sym (ap (λ (y : Bool × Pool). y.0) x),
                omega (arith, before, after, ap (length {A = ℕ}) f),
                ap (λ (m : List (ℕ × ℕ)). is_some (find id m)) (sym entries)
                    ∙ find-head id p.next_ref p.migrating,
              )
        ]

-- `allocate` with a free slot in the compute tier: a new block, and a slot less.
pub allocate-room :
    {p : Pool} (h : Healthy p)
    → 0 < room p
    → Returns
        (λ (id, q).
          Healthy q
          × ((id == invalid_block) ≡ false)
          × ((b : ℕ) → refs q b ≡ refs p b + (if id == b then 1 else 0))
          × (refs p id ≡ 0)
          × (room q + 1 ≡ room p)
          × ((b : ℕ) → id ≢ b → Untouched b p q))
        (allocate p)
unfolding grant put_free invalid_block
allocate-room {p} h some_room =
    let (ts, g) = get_elem?_of_lt p.tiers 0 h.some_tier in
    let before : room p ≡ length ts.free_slots = ap slots_of g in
    by_lists ts g before ts.free_slots p.free_ids refl refl
  where
    by_lists :
        (ts : TierState)
        → get_elem? p.tiers 0 ≡ some ts
        → room p ≡ length ts.free_slots
        → (free ids : List ℕ) → ts.free_slots ≡ free
        → p.free_ids ≡ ids
        → Returns
            (λ (id, q).
              Healthy q
              × ((id == invalid_block) ≡ false)
              × ((b : ℕ) → refs q b ≡ refs p b + (if id == b then 1 else 0))
              × (refs p id ≡ 0)
              × (room q + 1 ≡ room p)
              × ((b : ℕ) → id ≢ b → Untouched b p q))
            (allocate p)
    by_lists ts g before [] ids f e =
        absurd (omega (arith, some_room, before, ap (length {A = ℕ}) f))
    by_lists ts g before (slot ∷ rest) [] f e = absurd (
        omega (
          arith,
          h.inv.storage.balance,
          length-le-sum_free p.tiers 0 ts g,
          ap (length {A = ℕ}) e,
          ap (length {A = ℕ}) f,
        ))
    by_lists ts g before (slot ∷ rest) (id ∷ ids) f e =
        let r = free_id h.inv.storage id ids e in
        let (loc, l) = used_location h.inv.storage id r in
        let lt = get_elem?-lt p.refcount id r in
        let at_zero =
          get_elem?-set_self p.tiers 0 (record ts { free_slots = rest })
            (get_elem?-lt p.tiers 0 g) in
        let after : slots_of (get_elem? (set p.tiers 0 (record ts { free_slots = rest })) 0)
            ≡ length rest =
          ap slots_of at_zero in
        (
          (id, grant p id ids ts slot rest),
          allocate-grant h.inv.storage ts g e f,
          (
            Healthy-tiers h (grant-Inv h.inv ts g e f) refl
                (SameTiers-set p.tiers 0 ts (record ts { free_slots = rest }) g refl refl) refl refl
                refl refl,
            ground (arith, lt, h.inv.storage.valid_ids),
            (λ b. ground (arith, r, get_elem?-set p.refcount id b 1, lt)),
            ap or_zero r,
            omega (arith, before, after, ap (length {A = ℕ}) f),
            (λ b ne. record {
              location = get_elem?-set_ne p.location id b (record { tier = 0; slot = slot }) ne;
              moving = refl;
            }),
          ),
        )
