-- ===== src/Decimal.antt =====
-- Decimal text: `big.Int.String` and `%d`, and `big.Int.SetString` in base 10.
pub mod Laws
use zts_airdrop.Base.{
  ℕ, zero, suc, ◌+◌, ◌-◌, ◌*◌, ◌/◌, ◌%◌, Bool, true, false, ◌&&◌, List, [], ◌∷◌, ◌++◌, Option, none,
  some, Bytes, ℤ, pos, negsuc, ltb, leb, ◌==◌, if◌then◌else◌,
}

abbrev pub digit : ℕ → ℕ
digit n = b'0' + n

-- with fuel above `n` this ends by its test
pub digits : ℕ → ℕ → Bytes
digits zero n = []
digits (suc fuel) n =
    let more = digits fuel (n / 10) ++ (digit (n % 10) ∷ []) in
    if ltb n 10 then digit n ∷ [] else more

unfoldable pub decimal : ℕ → Bytes
unfolding digits
decimal n = digits (suc n) n

-- `(*big.Int).String`
unfoldable pub decimal_int : ℤ → Bytes
decimal_int (pos n) = decimal n
decimal_int (negsuc n) = b'-' ∷ decimal (suc n)

unfoldable pub is_digit : ℕ → Bool
is_digit c = leb b'0' c && leb c b'9'

-- the number that digits spell behind `n`
abbrev pub value_from : ℕ → Bytes → ℕ
value_from n [] = n
value_from n (c ∷ s) = value_from (n * 10 + (c - b'0')) s

abbrev pub value : Bytes → ℕ
value = value_from 0

pub scan : ℕ → Bytes → Option ℕ
scan n [] = some n
scan n (c ∷ s) = if is_digit c then scan (n * 10 + (c - b'0')) s else none

-- one digit at least
pub scan_digits : Bytes → Option ℕ
unfolding scan is_digit
scan_digits [] = none
scan_digits (c ∷ s) = scan 0 (c ∷ s)

-- a plus sign that is skipped
unfoldable pub unsigned : Bytes → Bytes
unsigned [] = []
unsigned (c ∷ s) = if c == b'+' then s else c ∷ s

abbrev pub positive : Option ℕ → Option ℤ
positive none = none
positive (some n) = some (pos n)

abbrev pub negative : Option ℕ → Option ℤ
negative none = none
negative (some zero) = some (pos 0)
negative (some (suc n)) = some (negsuc n)

-- `new(big.Int).SetString(s, 10)`: a sign may stand before the digits
unfoldable pub set_string : Bytes → Option ℤ
unfolding scan_digits unsigned
set_string [] = none
set_string (c ∷ s) =
    if c == b'-' then negative (scan_digits s) else positive (scan_digits (unsigned (c ∷ s)))
