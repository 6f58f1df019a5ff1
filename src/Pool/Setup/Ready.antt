-- ===== src/Pool/Setup/Ready.antt =====
-- What `init` returns is a healthy pool without references.
use kvslab.Base.{
  ℕ, zero, suc, ◌^◌, ◌<◌, ◌≡◌, refl, sym, ap, some, List, [], ◌∷◌, arith, length, get_elem?,
  replicate, ok, Returns, bind-inv, ok-inj,
}
use mathlib.Core.Path.{subst}
use kvslab.Types.{CacheConfig}
use kvslab.Tier.{Bytes}
use kvslab.Pool.State.{TierState, Job, Pool, TierSpec}
use kvslab.Pool.Setup.{add_tier, add_tiers, start, init}
use kvslab.Pool.Setup.Start.{AllAccepted, block_total, init-Fresh}
use kvslab.Pool.Refs.{refs, or_zero}
use kvslab.Pool.Health.{Healthy, Mapped}

-- What a pool has at its start beside what `Fresh` says.
record Idle (cfg : CacheConfig) (p : Pool) : Type 0 where
  no_entry : p.migrating ≡ []
  some_tier : 0 < length p.tiers
  unused : (b : ℕ) → refs p b ≡ 0
  same_cfg : p.cfg ≡ cfg

refs-replicate : (n b : ℕ) → or_zero (get_elem? (replicate n 0) b) ≡ 0
refs-replicate zero b = refl
refs-replicate (suc n) zero = refl
refs-replicate (suc n) (suc b) = refs-replicate n b

init-Idle :
    (threads : ℕ) (raw : Bytes) (spec : TierSpec) (specs : List TierSpec) (cfg : CacheConfig)
    {p : Pool}
    → init threads raw (spec ∷ specs) cfg ≡ ok p
    → Idle cfg p
unfolding init add_tiers start
init-Idle threads raw spec specs cfg {p} e =
    let ((tiers, total), f, last) = bind-inv (add_tiers cfg (spec ∷ specs)) _ e in
    let (first, g, more) = bind-inv (add_tier cfg spec) _ f in
    let ((rest, n), h, both) = bind-inv (add_tiers cfg specs) _ more in
    let whole : tiers ≡ first ∷ rest = sym (ap (λ (x : List TierState × ℕ). x.0) (ok-inj both)) in
    subst (Idle cfg) (ok-inj last) (record {
      no_entry = refl;
      some_tier = omega (arith, ap (length {A = TierState}) whole);
      unused = refs-replicate total;
      same_cfg = refl;
    })

no_job : {j : Job} (js : List Job) (i : ℕ) → js ≡ [] → get_elem? js i ≡ some j → ⊥
no_job js i e h = cc

-- `init` under the conditions of `init-Fresh`.
pub init-Healthy :
    (threads : ℕ) (raw : Bytes) (spec : TierSpec) (specs : List TierSpec) (cfg : CacheConfig)
    → AllAccepted cfg (spec ∷ specs)
    → block_total (spec ∷ specs) < 2 ^ 32
    → Returns
        (λ p. Healthy p × ((b : ℕ) → refs p b ≡ 0) × (p.cfg ≡ cfg))
        (init threads raw (spec ∷ specs) cfg)
init-Healthy threads raw spec specs cfg a lt =
    let (p, e, (v, sized, no_jobs, front, ids)) = init-Fresh threads raw spec specs cfg a lt in
    let idle = init-Idle threads raw spec specs cfg e in
    (
      p,
      e,
      (
        record {
          inv = v;
          sized = sized;
          cursor = record {
            within = omega (arith, front);
            unclaimed = λ i j h le. absurd (no_job p.jobs i no_jobs h);
            taken = λ i j h lt. absurd (no_job p.jobs i no_jobs h);
          };
          mapped = subst (Mapped p.jobs) (sym idle.no_entry) tt;
          some_tier = idle.some_tier;
          staffed = λ some_job. absurd (omega (arith, some_job, ap (length {A = Job}) no_jobs));
          sources = λ i j h. absurd (no_job p.jobs i no_jobs h);
        },
        idle.unused,
        idle.same_cfg,
      ),
    )
