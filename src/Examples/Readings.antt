-- ===== src/Examples/Readings.antt =====
-- The theorems on amounts at written amounts.
use zts_airdrop.Amount.{
  clean, parse_clean, fit_places, scale_digits, whole_part, frac_part, parse_amount, format_amount,
}
use zts_airdrop.Amount.Exact.{IsValueOf, parse_amount_exact}
use zts_airdrop.Amount.Written.{parse_amount_iff}
use zts_airdrop.Amount.RoundTrip.{parse_amount-format_amount}
use zts_airdrop.Base.{ℕ, ◌≡◌, ◌↔◌, refl, some, pos, ok, codes, ◌∷◌, ◌++◌, arith}
use zts_airdrop.Decimal.{set_string, unsigned, is_digit}
use zts_airdrop.Decimal.Laws.{AllDigits}
use zts_airdrop.Text.{trim_space, trim_byte, remove, has_prefix, cut}

two_and_half : parse_amount (codes " +2_.500 ") 2 ≡ ok (pos 250)
unfolding parse_amount clean parse_clean fit_places scale_digits set_string trim_space trim_byte
    remove has_prefix cut
two_and_half = refl

parse_amount_exact_example :
    let p = cut b'.' (clean (codes " +2_.500 ")) in
    (n : ℕ) × (pos 250 ≡ pos n)
    × IsValueOf n (unsigned (whole_part p.before)) (frac_part p.found p.after) 2
parse_amount_exact_example = parse_amount_exact (codes " +2_.500 ") 2 two_and_half

all_digits : AllDigits (codes "12") × AllDigits (codes "750")
unfolding is_digit
all_digits = ((refl, (refl, tt)), (refl, (refl, (refl, tt))))

parse_amount_iff_example :
    (parse_amount (codes "12" ++ (b'.' ∷ codes "750")) 2 ≡ ok (pos 1275))
    ↔ IsValueOf 1275 (codes "12") (codes "750") 2
parse_amount_iff_example =
    parse_amount_iff (codes "12") (codes "750") 2 1275 all_digits.0 all_digits.1

parse_amount-format_amount_example :
    parse_amount (format_amount (some (pos 1050)) 2) 2 ≡ ok (pos 1050)
parse_amount-format_amount_example = parse_amount-format_amount 1050 2 (omega arith)
