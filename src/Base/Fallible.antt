-- ===== src/Base/Fallible.antt =====
-- What a call that may stop the program returns. A failure is one of the ways in which the source
-- leaves normal execution; no state is returned with it, since nothing runs afterwards.
use Prim.Native.Nat.{ℕ, zero, suc}
use mathlib.Core.Path.{◌≡◌, refl, ap, subst}
use mathlib.Core.Bool.{Bool, true, false}
use mathlib.Core.Option.{none, some}
use mathlib.Core.List.{List, [], ◌∷◌}
use kvslab.Base.Lists.{get_elem?}
use kvslab.Base.Tests.{if◌then◌else◌}

-- `invalid_argument`, `bad_alloc`: the exceptions. `fatal`: the call of `fatal()`, which aborts. `assertion`: a
-- failed `assert`. `undefined`: an access that C++ leaves undefined, as an index out of range.
-- `out_of_fuel` is no failure of the source: a loop of the model was given too few rounds.
pub data Error : Type 0 where
  invalid_argument bad_alloc fatal assertion undefined out_of_fuel : Error

pub data Result {ℓ} (T : Type ℓ) : Type ℓ where
  err : Error → Result T
  ok : T → Result T

-- The next step runs on the result of the first, if that has one.
infixl 5 ◌>>=◌ ◌>>◌
abbrev pub ◌>>=◌ {ℓ κ} : {S : Type ℓ} {T : Type κ} → Result S → (S → Result T) → Result T
err why >>= next = err why
ok s >>= next = next s

abbrev pub ◌>>◌ {κ} : {T : Type κ} → Result (Unit {0}) → Result T → Result T
test >> rest = test >>= λ _. rest

-- `if (!b) fail;`
abbrev pub guard : Bool → Error → Result (Unit {0})
guard b why = if b then ok tt else err why

-- `v[i]`
abbrev pub at {ℓ} : {A : Type ℓ} → List A → ℕ → Result A
at xs i = elim (get_elem? xs i) [ none ↦ err undefined | some a ↦ ok a ]

-- `for (x : xs) s = f(s, x)`
abbrev pub for_each {ℓ κ} : {S : Type ℓ} {A : Type κ} → (S → A → Result S) → List A → S → Result S
for_each f [] s = ok s
for_each f (x ∷ xs) s = f s x >>= λ t. for_each f xs t

pub at-some {ℓ} :
    {A : Type ℓ} (xs : List A) (i : ℕ) {a : A} → get_elem? xs i ≡ some a → at xs i ≡ ok a
at-some xs i h = rw (h, at)

-- The call comes to an end with a result, and `P` holds of that.
abbrev pub Returns {ℓ κ} : {A : Type ℓ} → (A → Type κ) → Result A → Type (ℓ ⊔ κ)
Returns {A} P m = (a : A) × (m ≡ ok a) × P a

pub Returns-bind {ℓ κ} :
    {A B : Type ℓ} {P : A → Type κ} {Q : B → Type κ} {m : Result A} (f : A → Result B)
    → Returns P m
    → ((a : A) → P a → Returns Q (f a))
    → Returns Q (m >>= f)
Returns-bind {Q} f (a, e, h) next = rw (e, ◌>>=◌) (next a h)

pub Returns-at {ℓ κ} :
    {A : Type ℓ} {P : A → Type κ} {m : Result A} {a : A} → Returns P m → m ≡ ok a → P a
Returns-at {P} {a} (b, e, h) f = let same : b ≡ a = cc in subst P same h

-- A run that came to an end, taken apart.
pub bind-inv {ℓ κ} :
    {S : Type ℓ} {T : Type κ} (m : Result S) (next : S → Result T) {t : T}
    → m >>= next ≡ ok t
    → (s : S) × (m ≡ ok s) × (next s ≡ ok t)
bind-inv (err why) next h = cc
bind-inv (ok s) next h = (s, refl, h)

pub ok-inj {ℓ} : {A : Type ℓ} {a b : A} → ok a ≡ ok b → a ≡ b
ok-inj h = cc

pub at-inv {ℓ} :
    {A : Type ℓ} (xs : List A) (i : ℕ) {a : A} → at xs i ≡ ok a → get_elem? xs i ≡ some a
at-inv [] i h = cc
at-inv (x ∷ xs) zero h = ap some (ok-inj h)
at-inv (x ∷ xs) (suc i) h = at-inv xs i h

pub guard-inv {ℓ} :
    {T : Type ℓ} (b : Bool) (why : Error) (rest : Result T) {t : T}
    → guard b why >> rest ≡ ok t
    → rest ≡ ok t
guard-inv true why rest h = h
guard-inv false why rest h = cc
