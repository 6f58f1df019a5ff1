-- ===== src/Pool/Basic.antt =====
-- `allocate` and `incref` keep the invariant of BlockPool.
use kvslab.Base.{
  ℕ, zero, suc, ◌^◌, ◌<◌, ◌≡◌, refl, ap, ◌∙◌, ◌≢◌, ◌⊎◌, inl, inr, Option, none, some, List, [], ◌∷◌,
  arith, ◌==◌, if◌then◌else◌, length, get_elem?, set, length-set, get_elem?-lt, get_elem?_of_lt,
  get_elem?-set_self, get_elem?-set_ne, get_elem?-set, ok, Returns,
}
use kvslab.Types.{invalid_block}
use kvslab.Pool.{allocate, grant, incref}
use kvslab.Pool.State.{Location, TierState, Job, Pool, put_free}
use kvslab.Pool.Slots.{occupants-set, set_same, live-set}
use kvslab.Pool.Free.{free_of-some, free_of-set, size_of-set, sum_free-set, length-le-sum_free}
use kvslab.Pool.Inv.{Storage, InFlight, Queued, Inv, Queued-mono}

-- A free id is in range, and its count is 0.
pub free_id :
    {p : Pool} {js : List Job} (v : Storage p js) (id : ℕ) (ids : List ℕ)
    → p.free_ids ≡ id ∷ ids
    → get_elem? p.refcount id ≡ some 0
free_id {p} v id ids e = go (get_elem? p.refcount id) refl
  where
    go : (o : Option ℕ) → get_elem? p.refcount id ≡ o → o ≡ some 0
    go none h =
        ground (arith, v.ids id, λ (l : id < length p.refcount). get_elem?_of_lt p.refcount id l)
    go (some zero) h = refl
    go (some (suc r)) h = ground (arith, v.ids id)

module _ {p : Pool} {js : List Job} (v : Storage p js) (ts : TierState)
    (h : get_elem? p.tiers 0 ≡ some ts) where
  pub allocate_full : ts.free_slots ≡ [] → allocate p ≡ ok (invalid_block, p)
  unfolding allocate
  allocate_full f = ground arith

  module _ {ids : List ℕ} {id : ℕ} (e : p.free_ids ≡ id ∷ ids) {slot : ℕ} {rest : List ℕ}
      (f : ts.free_slots ≡ slot ∷ rest) where
    free_location : (loc : Location) × (get_elem? p.location id ≡ some loc)
    free_location =
        get_elem?_of_lt p.location id
          (omega (arith, get_elem?-lt p.refcount id (free_id v id ids e), v.sizes))

    pub allocate-grant : allocate p ≡ ok (id, grant p id ids ts slot rest)
    unfolding allocate
    allocate-grant = ground (arith, free_id v id ids e, get_elem?-lt p.location id free_location.1)

    pub grant-Storage : Storage (grant p id ids ts slot rest) js
    unfolding grant put_free
    grant-Storage =
        let (loc, l) = free_location in
        let r = free_id v id ids e in
        let new : TierState = record ts { free_slots = rest } in
        record {
          sizes = omega (
            arith,
            v.sizes,
            length-set p.location id (record { tier = 0; slot = slot }),
            length-set p.refcount id 1,
          );
          slots = λ t s. ground (
            arith,
            v.slots t s,
            free_of-some p.tiers 0 ts h s,
            free_of-set p.tiers 0 ts h new t s,
            size_of-set p.tiers 0 ts h new t refl,
            occupants-set t s p.location p.refcount id loc (record { tier = 0; slot = slot }) 0 1 l
                r,
          );
          ids = λ k. ground (
            arith,
            v.ids k,
            length-set p.refcount id 1,
            get_elem?-set p.refcount id k 1,
            get_elem?-lt p.refcount id r,
          );
          balance = ground (arith, v.balance, sum_free-set p.tiers 0 ts new h);
          population =
              ground
                (arith, v.population, live-set p.refcount id 0 1 r, length-set p.refcount id 1);
          valid_ids = omega (arith, v.valid_ids, length-set p.refcount id 1);
        }

    pub grant-Queued : Queued p js → Queued (grant p id ids ts slot rest) js
    unfolding grant
    grant-Queued w = Queued-mono w keep (omega arith)
      where
        r : get_elem? p.refcount id ≡ some 0
        r = free_id v id ids e

        keep : (j : Job) → InFlight p j → InFlight (grant p id ids ts slot rest) j
        keep j g =
            let other : id ≢ j.id = ground (arith, r, g.used) in
            record {
              mapped = g.mapped;
              loc = g.loc;
              others = g.others;
              located = get_elem?-set_ne p.location id j.id _ other ∙ g.located;
              used = get_elem?-set_ne p.refcount id j.id _ other ∙ g.used;
              leaves = g.leaves;
              from_tier = g.from_tier;
              from_slot = g.from_slot;
            }

-- A block that has a reference and is in range has a location.
pub used_location :
    {p : Pool} {js : List Job} (v : Storage p js) (id : ℕ) {c : ℕ}
    → get_elem? p.refcount id ≡ some c
    → (loc : Location) × (get_elem? p.location id ≡ some loc)
used_location {p} v id r =
    get_elem?_of_lt p.location id (omega (arith, get_elem?-lt p.refcount id r, v.sizes))

-- The pool with another count at `id`.
abbrev pub recount : Pool → ℕ → ℕ → Pool
recount p id c = record p { refcount = set p.refcount id c }

module _ {p : Pool} {js : List Job} (v : Storage p js) (id : ℕ) {c : ℕ}
    (r : get_elem? p.refcount id ≡ some (suc c)) where
  pub incref-recount : suc (suc c) < 2 ^ 32 → incref p id ≡ ok (recount p id (suc (suc c)))
  unfolding incref
  incref-recount lt =
      let (loc, l) = used_location v id r in ground (arith, r, get_elem?-lt p.location id l)

  -- A count may change as long as it stays above 0.
  pub recount-Storage : (d : ℕ) → Storage (recount p id (suc d)) js
  recount-Storage d =
      let (loc, l) = used_location v id r in
      let same = set_same p.location id loc l in
      record {
        sizes = omega (arith, v.sizes, length-set p.refcount id (suc d));
        slots = λ t s. ground (
          arith,
          same,
          v.slots t s,
          occupants-set t s p.location p.refcount id loc loc (suc c) (suc d) l r,
        );
        ids = λ k. ground (
          arith,
          v.ids k,
          length-set p.refcount id (suc d),
          get_elem?-set p.refcount id k (suc d),
          get_elem?-lt p.refcount id r,
        );
        balance = v.balance;
        population = ground (
          arith,
          v.population,
          live-set p.refcount id (suc c) (suc d) r,
          length-set p.refcount id (suc d),
        );
        valid_ids = omega (arith, v.valid_ids, length-set p.refcount id (suc d));
      }

  pub recount-Queued : (d : ℕ) → Queued p js → Queued (recount p id (suc d)) js
  recount-Queued d w = Queued-mono w keep (omega arith)
    where
      keep : (j : Job) → InFlight p j → InFlight (recount p id (suc d)) j
      keep j g = record {
        mapped = g.mapped;
        loc = g.loc;
        others = if id == j.id then d else g.others;
        located = g.located;
        used =
            ground (
              arith,
              g.used,
              get_elem?-set p.refcount id j.id (suc d),
              get_elem?-lt p.refcount id r,
            );
        leaves = g.leaves;
        from_tier = g.from_tier;
        from_slot = g.from_slot;
      }

pub grant-Inv :
    {p : Pool} {js : List Job} (v : Inv p js) (ts : TierState)
    → (h : get_elem? p.tiers 0 ≡ some ts)
    → {ids : List ℕ} {id : ℕ} (e : p.free_ids ≡ id ∷ ids) {slot : ℕ} {rest : List ℕ}
    → (f : ts.free_slots ≡ slot ∷ rest) → Inv (grant p id ids ts slot rest) js
grant-Inv v ts h e f = record {
  storage = grant-Storage v.storage ts h e f;
  queue = grant-Queued v.storage ts h e f v.queue;
}

-- What `allocate` returns: nothing while the compute tier is full, and otherwise a block that was
-- free, in a slot of the compute tier that was free, with one reference.
abbrev pub Allocated : Pool → List Job → TierState → ℕ × Pool → Type 0
Allocated p js ts (id, q) =
    Inv q js
    × (((ts.free_slots ≡ []) × (id ≡ invalid_block) × (q ≡ p))
        ⊎ ((slot : ℕ) × (get_elem? p.refcount id ≡ some 0)
            × (get_elem? q.refcount id ≡ some 1)
            × (get_elem? q.location id ≡ some (record { tier = 0; slot = slot }))
            × (ts.free_slots ≢ [])
            × ((k : ℕ)
                → id ≢ k
                → (get_elem? q.refcount k ≡ get_elem? p.refcount k)
                  × (get_elem? q.location k ≡ get_elem? p.location k))))

module _ {p : Pool} {js : List Job} (v : Inv p js) (ts : TierState)
    (h : get_elem? p.tiers 0 ≡ some ts) where
  granted :
      (free ids : List ℕ)
      → ts.free_slots ≡ free
      → p.free_ids ≡ ids
      → Returns (Allocated p js ts) (allocate p)
  unfolding grant
  granted [] ids f e =
      ((invalid_block, p), allocate_full v.storage ts h f, (v, inl (f, refl, refl)))
  granted (slot ∷ rest) [] f e = absurd (
      omega (
        arith,
        v.storage.balance,
        length-le-sum_free p.tiers 0 ts h,
        ap (length {A = ℕ}) e,
        ap (length {A = ℕ}) f,
      ))
  granted (slot ∷ rest) (id ∷ ids) f e =
      let r = free_id v.storage id ids e in
      let (loc, l) = used_location v.storage id r in
      (
        (id, grant p id ids ts slot rest),
        allocate-grant v.storage ts h e f,
        (
          grant-Inv v ts h e f,
          inr (
            slot,
            r,
            get_elem?-set_self p.refcount id 1 (get_elem?-lt p.refcount id r),
            get_elem?-set_self p.location id _ (get_elem?-lt p.location id l),
            (λ n. cc),
            λ k d. (get_elem?-set_ne p.refcount id k 1 d, get_elem?-set_ne p.location id k _ d),
          ),
        ),
      )

  -- `allocate` does not fail, and keeps the invariant. While the compute tier has no free slot it
  -- returns the invalid id and changes nothing; otherwise it returns a block that had no reference
  -- and now has one, in a slot of the compute tier, and no other block is touched.
  pub allocate-Allocated : Returns (Allocated p js ts) (allocate p)
  allocate-Allocated = granted ts.free_slots p.free_ids refl refl
