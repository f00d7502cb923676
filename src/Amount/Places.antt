-- ===== src/Amount/Places.antt =====
-- The value of digits with a point among them, and what padding and cutting zeros do to it.
use zts_airdrop.Base.{
  ℕ, ◌+◌, ◌-◌, ◌*◌, ◌^◌, ◌≤◌, ◌<◌, ◌≡◌, ap, ◌∙◌, sym, ◌≡⟨◌⟩◌, ◌∎, ◌++◌, Bytes, arith, All, length,
  take, drop, replicate, length-drop, append_assoc, take-append-drop,
}
use zts_airdrop.Decimal.{value, value_from}
use zts_airdrop.Decimal.Laws.{
  value_from-append, value_from-replicate, value_from_shift, zeros_value, pow-add,
}

pub value-padded :
    (w f : Bytes) (k : ℕ) → value (w ++ (f ++ replicate k b'0')) ≡ value (w ++ f) * 10 ^ k
value-padded w f k =
    rw (← append_assoc, value_from-append 0 (w ++ f) (replicate k b'0')) (value_from-replicate _ k)

pub value_split :
    (w f : Bytes) (d : ℕ)
    → value (w ++ f) ≡ value (w ++ take d f) * 10 ^ length (drop d f) + value (drop d f)
value_split w f d =
    value (w ++ f)
    ≡⟨ ap (λ u. value (w ++ u)) (sym (take-append-drop d f)) ⟩ value (w ++ (take d f ++ drop d f))
    ≡⟨ ap value (sym (append_assoc w (take d f) (drop d f))) ⟩ value ((w ++ take d f) ++ drop d f)
    ≡⟨ value_from-append 0 (w ++ take d f) (drop d f) ⟩
      value_from (value (w ++ take d f)) (drop d f)
    ≡⟨ value_from_shift _ (drop d f) ⟩
      value (w ++ take d f) * 10 ^ length (drop d f) + value (drop d f) ∎

pub length_split : (f : Bytes) (d : ℕ) → d ≤ length f → length f ≡ d + length (drop d f)
length_split f d h = omega (arith, length-drop {0} d f)

-- Zeros that are cut off behind the token's places leave the written value as it is.
pub cut_zeros :
    (n : ℕ) (w f : Bytes) (d : ℕ)
    → d < length f
    → All (λ c. c ≡ b'0') (drop d f)
    → n ≡ value (w ++ take d f)
    → n * 10 ^ length f ≡ value (w ++ f) * 10 ^ d
cut_zeros n w f d long zeros e =
    rw (value_split w f d, zeros_value (drop d f) zeros, length_split f d (omega arith))
      (rw (pow-add d (length (drop d f)), e) (omega arith))

-- With places to spare, the padded digits are the written value in smallest units.
pub fill_places :
    (n : ℕ) (w f : Bytes) (d : ℕ)
    → length f ≤ d
    → n ≡ value (w ++ f) * 10 ^ (d - length f)
    → n * 10 ^ length f ≡ value (w ++ f) * 10 ^ d
fill_places n w f d short e =
    let p : 10 ^ d ≡ 10 ^ (d - length f) * 10 ^ length f =
      ap (λ k. 10 ^ k) (omega arith) ∙ pow-add (d - length f) (length f) in
    rw (e, p) (omega arith)
