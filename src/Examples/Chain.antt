-- ===== src/Examples/Chain.antt =====
-- A small chain for the witnesses: addresses, hashes and token standards are numbers, and their
-- text is decimal.
use native.Mathlib.Decide.{ℕ_discrete}
use zts_airdrop.Base.{
  ℕ, ap, sym, ◌∙◌, none, some, Option, ℤ, pos, negsuc, Result, ok, err, errorf, [], refl, ◌==◌,
}
use zts_airdrop.Decimal.{decimal, set_string, value, is_digit}
use zts_airdrop.Decimal.Laws.{
  AllDigits-Lacks, decimal-ne-nil, full_text, decimal-AllDigits, set_string-decimal, value-decimal,
}
use zts_airdrop.Zenon.{Zenon, IsLawful}

abbrev read_number : Option ℤ → Result ℕ
read_number none = err (errorf "not a number" [])
read_number (some (pos n)) = ok n
read_number (some (negsuc n)) = err (errorf "not a number" [])

-- contracts have the numbers behind 900
abbrev pub chain : Zenon
chain = record {
  Address = ℕ;
  Hash = ℕ;
  Zts = ℕ;
  address_discrete = ℕ_discrete;
  hash_discrete = ℕ_discrete;
  address_string = decimal;
  hash_string = decimal;
  zts_string = decimal;
  parse_address = λ s. read_number (set_string s);
  parse_zts = λ s. read_number (set_string s);
  zero_address = 0;
  zero_hash = 0;
  zero_zts = 0;
  is_embedded = λ a. a == 900;
  sha256_hex = λ s. s;
}

pub chain-IsLawful : IsLawful chain
unfolding is_digit
chain-IsLawful = record {
  parse-address_string = λ a. rw set_string-decimal refl;
  address_string_line = λ a. AllDigits-Lacks 10 (decimal a) refl (decimal-AllDigits a);
  parse-zts_string = λ t. rw set_string-decimal refl;
  zts_string_full = λ t. full_text (decimal t) (decimal-ne-nil t);
  zts_string_bar = λ t. AllDigits-Lacks b'|' (decimal t) refl (decimal-AllDigits t);
  zts_string_injective = λ t u e. sym (value-decimal t) ∙ ap value e ∙ value-decimal u;
}
