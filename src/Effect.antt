-- ===== src/Effect.antt =====
-- Functions that change a state and may return an error, as a monad.
use zts_airdrop.Base.{◌≡◌, refl, Err, Result, ok, err}

abbrev pub M {ℓ} : Type 0 → Type ℓ → Type ℓ
M W A = W → Result A × W

abbrev pub next {ℓ κ} :
    {W : Type 0} {A : Type ℓ} {B : Type κ} → (A → M W B) → Result A × W → Result B × W
next f (ok a, w) = f a w
next f (err e, w) = (err e, w)

infixl 5 ◌>>=◌ ◌>>◌
abbrev pub ◌>>=◌ {ℓ κ} : {W : Type 0} {A : Type ℓ} {B : Type κ} → M W A → (A → M W B) → M W B
◌>>=◌ m f w = next f (m w)

abbrev pub ◌>>◌ {ℓ} : {W : Type 0} {B : Type ℓ} → M W (Unit {0}) → M W B → M W B
m >> k = m >>= λ _. k

abbrev pub pure {ℓ} : {W : Type 0} {A : Type ℓ} → A → M W A
pure a w = (ok a, w)

abbrev pub fail {ℓ} : {W : Type 0} {A : Type ℓ} → Err → M W A
fail e w = (err e, w)

abbrev pub lift {ℓ} : {W : Type 0} {A : Type ℓ} → Result A → M W A
lift r w = (r, w)

-- the error of a step, wrapped
abbrev pub wrap_err {ℓ} : {W : Type 0} {A : Type ℓ} → (Err → Err) → Result A × W → Result A × W
wrap_err f (ok a, w) = (ok a, w)
wrap_err f (err e, w) = (err (f e), w)

abbrev pub wrapping {ℓ} : {W : Type 0} {A : Type ℓ} → (Err → Err) → M W A → M W A
wrapping f m w = wrap_err f (m w)

-- a step that succeeds, and the rest
pub next_ok {ℓ κ} :
    {W : Type 0} {A : Type ℓ} {B : Type κ} (f : A → M W B) (r : Result A × W) {a : A}
    → r.0 ≡ ok a
    → next f r ≡ f a r.1
next_ok f r e = rw e

-- what holds of both outcomes of a step holds of the step and the rest
pub next_cases {ℓ κ μ} :
    {W : Type 0} {A : Type ℓ} {B : Type κ} (P : Result B × W → Type μ) (f : A → M W B)
    (r : Result A × W)
    → ((e : Err) → r.0 ≡ err e → P (err e, r.1))
    → ((a : A) → r.0 ≡ ok a → P (f a r.1))
    → P (next f r)
next_cases P f (ok a, w) x y = y a refl
next_cases P f (err e, w) x y = x e refl

-- what a step and the rest keep, they keep together
pub next_keeps {ℓ κ μ} :
    {W : Type 0} {A : Type ℓ} {B : Type κ} (P : W → Type μ) (f : A → M W B) (r : Result A × W)
    → P r.1
    → ((a : A) → P (f a r.1).1)
    → P (next f r).1
next_keeps P f (ok a, w) h k = k a
next_keeps P f (err e, w) h k = h

pub wrap_keeps {ℓ μ} :
    {W : Type 0} {A : Type ℓ} (P : W → Type μ) (f : Err → Err) (r : Result A × W)
    → P r.1
    → P (wrap_err f r).1
wrap_keeps P f (ok a, w) h = h
wrap_keeps P f (err e, w) h = h
