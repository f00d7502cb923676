-- ===== src/Examples/Amount.antt =====
-- The tables of amount_test.go.
use zts_airdrop.Amount.{
  clean, parse_clean, fit_places, scale_digits, parse_amount, format_parts, format_amount,
}
use zts_airdrop.Base.{◌≡◌, refl, some, pos, ok, err, errorf, codes, [], ◌∷◌}
use zts_airdrop.Decimal.{decimal, decimal_int, set_string}
use zts_airdrop.Text.{trim_space, trim_byte, trim_right, keep, remove, has_prefix, cut}

accepted :
    (parse_amount (codes "  2.5  ") 8 ≡ ok (pos 250000000))
    × (parse_amount (codes ".5") 8 ≡ ok (pos 50000000))
    × (parse_amount (codes "1.") 8 ≡ ok (pos 100000000))
    × (parse_amount (codes "1_000") 0 ≡ ok (pos 1000))
    × (parse_amount (codes "10.000") 0 ≡ ok (pos 10))
    × (parse_amount (codes "123456789012345678") 8 ≡ ok (pos 12345678901234567800000000))
unfolding parse_amount clean parse_clean fit_places scale_digits set_string trim_space trim_byte
    remove has_prefix cut
accepted = (refl, refl, refl, refl, refl, refl)

refused :
    (parse_amount (codes "1.2.3") 8 ≡ err (errorf "amount %q is not a number" (codes "1.2.3" ∷ [])))
    × (parse_amount (codes "0") 8 ≡ err (errorf "amount %q rounds to zero" (codes "0" ∷ [])))
unfolding parse_amount clean parse_clean fit_places scale_digits set_string trim_space trim_byte
    remove has_prefix cut decimal
refused = (refl, refl)

formatted :
    (format_amount (some (pos 1)) 8 ≡ codes "0.00000001")
    × (format_amount (some (pos 100000010)) 8 ≡ codes "1.0000001")
    × (format_amount (some (pos 1000000000000000000)) 18 ≡ codes "1")
unfolding format_amount format_parts decimal decimal_int trim_right keep
formatted = (refl, refl, refl)
