-- ===== src/Error.antt =====
-- src/error.rs: the errors that the modelled code returns, less their messages, and `Result`.
use trine_kv.Prelude.{ℕ, Bool, true, false, ◌≡◌, refl, ap, ◌∙◌, if◌then◌else◌, ◌⊎◌, inl, inr}

pub data Error : Type 0 where
  corruption invalid_format unsupported_format invalid_options : Error
  runtime_busy closed snapshot_database_mismatch lease_unavailable conflict : Error
  -- the requested version, and the newest visible or the oldest retained one
  read_version_too_new read_version_expired : ℕ → ℕ → Error

-- `Result<Value, Error>`
pub data Result {ℓ} (Value : Type ℓ) : Type ℓ where
  ok : Value → Result Value
  err : Error → Result Value

-- `if !holds { return Err(error) }`
abbrev pub guard : Bool → Error → Result (Unit {0})
guard false error = err error
guard true error = ok tt

-- The operator `?`: what follows runs on a value, and an error returns.
infixl 5 ◌>>=◌ ◌>>◌
abbrev pub ◌>>=◌ {ℓ κ} :
    {First : Type ℓ} {Second : Type κ} → Result First → (First → Result Second) → Result Second
err error >>= then_run = err error
ok value >>= then_run = then_run value

abbrev pub ◌>>◌ {κ} : {Second : Type κ} → Result (Unit {0}) → Result Second → Result Second
check >> then_run = check >>= λ done. then_run

-- What a chain that succeeds has passed.
pub guard-ok {ℓ} :
    {B : Type ℓ} {k : Result B} {b : B} (holds : Bool) (e : Error)
    → guard holds e >> k ≡ ok b
    → (holds ≡ true) × (k ≡ ok b)
guard-ok true e h = (refl, h)
guard-ok false e h = cc

pub bind-ok {ℓ κ} :
    {First : Type ℓ} {Second : Type κ} {result : Second} (r : Result First)
    (then_run : First → Result Second)
    → r >>= then_run ≡ ok result
    → (value : First) × (r ≡ ok value) × (then_run value ≡ ok result)
bind-ok (err error) then_run h = cc
bind-ok (ok value) then_run h = (value, refl, h)

pub chain {ℓ κ} :
    {A : Type ℓ} {B : Type κ} {m : Result A} {a : A} {r : Result B} (f : A → Result B)
    → m ≡ ok a
    → f a ≡ r
    → m >>= f ≡ r
chain f e h = ap (λ x. x >>= f) e ∙ h

pub pass {ℓ} :
    {B : Type ℓ} {k r : Result B} (holds : Bool) (e : Error)
    → holds ≡ true
    → k ≡ r
    → guard holds e >> k ≡ r
pass true e h g = g
pass false e h g = cc

pub otherwise {ℓ} :
    {A : Type ℓ} {k r : A} (b : Bool) (x : A) → b ≡ false → k ≡ r → (if b then x else k) ≡ r
otherwise true x e h = cc
otherwise false x e h = h

pub either {ℓ} : {A : Type ℓ} {x k r : A} (b : Bool) → (if b then x else k) ≡ r → (x ≡ r) ⊎ (k ≡ r)
either true h = inl h
either false h = inr h

pub bind-same {ℓ κ} :
    {A : Type ℓ} {B : Type κ} (m : Result A) (f g : A → Result B)
    → ((a : A) → m ≡ ok a → f a ≡ g a)
    → m >>= f ≡ m >>= g
bind-same (ok a) f g h = h a refl
bind-same (err e) f g h = refl
