-- ===== src/Base/Results.antt =====
-- Go's error values, results that may carry one, and the big integers of `math/big`.
use Prim.Native.Nat.{ℕ, suc}
use Prim.Native.Char.{code}
use Prim.Native.String.{String}
use mathlib.Core.Path.{◌≡◌, refl, ap}
use mathlib.Core.Logic.{◌⊎◌, inl, inr}
use mathlib.Core.Bool.{Bool, true, false}
use mathlib.Core.List.{List, [], ◌∷◌}

-- A Go string, as its bytes. Texts are taken to be ASCII.
abbrev pub Bytes : Type 0
Bytes = List ℕ

-- The bytes of an ASCII literal.
abbrev pub codes : String → Bytes
codes String.[] = []
codes (String.◌∷◌ c s) = code c ∷ codes s

-- `errorf` is `fmt.Errorf` or `errors.New` with a format and its arguments, `wrapf` the same
-- around another error (`%w`), `outside` an error that a called package returns, `canceled`
-- is `context.Canceled`, and `diverges` says that the fuel of a loop of the model ran out.
pub data Err : Type 0 where
  canceled diverges : Err
  outside : Bytes → Err
  errorf : String → List Bytes → Err
  wrapf : String → List Bytes → Err → Err

-- `errors.Is(err, context.Canceled)`
abbrev pub is_canceled : Err → Bool
is_canceled canceled = true
is_canceled diverges = false
is_canceled (outside text) = false
is_canceled (errorf format args) = false
is_canceled (wrapf format args e) = is_canceled e

pub data Result {ℓ} (A : Type ℓ) : Type ℓ where
  ok : A → Result A
  err : Err → Result A

pub Result-cases {ℓ} :
    {A : Type ℓ} (r : Result A) → ((a : A) × (r ≡ ok a)) ⊎ ((e : Err) × (r ≡ err e))
Result-cases (ok a) = inl (a, refl)
Result-cases (err e) = inr (e, refl)

-- `negsuc n` is -(n + 1).
pub data ℤ : Type 0 where
  pos : ℕ → ℤ
  negsuc : ℕ → ℤ

-- `new(big.Int).Abs`
abbrev pub abs : ℤ → ℕ
abs (pos n) = n
abs (negsuc n) = suc n

abbrev pub is_negative : ℤ → Bool
is_negative (pos n) = false
is_negative (negsuc n) = true

pub ok_injective : {A : Type 0} {a b : A} → ok a ≡ ok b → a ≡ b
ok_injective {a} e = ap (from_ok a) e
  where
    from_ok : {A : Type 0} → A → Result A → A
    from_ok d (ok x) = x
    from_ok d (err x) = d

pub err_injective : {A : Type 0} {x y : Err} → ◌≡◌ {A = Result A} (err x) (err y) → x ≡ y
err_injective {x} e = ap (from_err x) e
  where
    from_err : {A : Type 0} → Err → Result A → Err
    from_err d (ok a) = d
    from_err d (err x) = x
