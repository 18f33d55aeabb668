-- ===== src/Signing/Kms/Signs.antt =====
-- What KmsSigner of src/trustrail/signing/kms.py makes of an answer of KMS.
use mathlib.Core.List.{append-nil}
use cpfbuddies.Prelude.{
  ℕ, zero, suc, ◌+◌, ◌-◌, ◌^◌, ◌<◌, ◌≤◌, String, ◌<>◌, true, ◌≡◌, refl, sym, ◌∙◌, ap, ◌⊎◌, inl, inr,
  Option, none, some, List, [], ◌∷◌, ◌++◌, ◌==◌, eq_iff, length, leb, ltb, Bool-cases, arith,
  if◌then◌else◌,
}
use cpfbuddies.Prelude.Text.{to_hex}
use cpfbuddies.Prelude.Integers.{pos}
use cpfbuddies.Errors.{Result, ok, err, value_error}
use cpfbuddies.Signing.Libraries.{Libraries}
use cpfbuddies.Signing.Crypto.{big_endian, recover_address, recovery_id}
use cpfbuddies.Signing.Eip712.{big_endian_bytes}
use cpfbuddies.Signing.Kms.{
  curve_order, half_curve_order, der_sequence, der_integer, read_der_integer, parse_der_signature,
  normalise_s, word_of, packed, tried, candidate, pack, sign,
}
use cpfbuddies.Signing.Kms.Packed.{
  take-append, drop-append, last_of_packed, read-word, take-word, drop-word, to_bytes-0x,
  packed_bytes, packed_length,
}

-- The DER form of two integers with these bytes
abbrev pub der_integer_of : List ℕ → List ℕ
der_integer_of bs = der_integer ∷ length bs ∷ bs

abbrev pub der_of : ℕ → List ℕ → List ℕ → List ℕ
der_of n rs ss = der_sequence ∷ n ∷ (der_integer_of rs ++ der_integer_of ss)

-- The number of the two, s and its twin, that is in the low half
abbrev pub low_half : ℕ → ℕ
low_half s = if leb s half_curve_order then s else curve_order - s

read-der_integer_of :
    (bs rest : List ℕ) → read_der_integer (der_integer_of bs ++ rest) ≡ ok (big_endian 0 bs, rest)
unfolding read_der_integer
read-der_integer_of bs rest = rw (take-append bs rest, drop-append bs rest) refl

parse-der_of :
    (n : ℕ) (rs ss : List ℕ)
    → parse_der_signature (der_of n rs ss) ≡ ok (big_endian 0 rs, big_endian 0 ss)
unfolding parse_der_signature
parse-der_of n rs ss =
    let second : read_der_integer (der_integer_of ss) ≡ ok (big_endian 0 ss, []) =
      ap read_der_integer (sym (append-nil (der_integer_of ss))) ∙ read-der_integer_of ss [] in
    rw (read-der_integer_of rs (der_integer_of ss), second) refl

low_half-le :
    (s : ℕ) → s ≤ curve_order → (normalise_s s ≡ pos (low_half s)) × (low_half s ≤ half_curve_order)
unfolding normalise_s
low_half-le s h = ground arith

-- The text of r, s and v
abbrev text_of_vrs : ℕ → ℕ → ℕ → String
text_of_vrs r s v =
    "0x" <> to_hex (big_endian_bytes 32 r ++ (big_endian_bytes 32 s ++ ((v + 27) ∷ [])))

packed_lem : (r s v : ℕ) → r < 2 ^ 256 → s < 2 ^ 256 → packed r (pos s) v ≡ ok (text_of_vrs r s v)
unfolding packed word_of
packed_lem r s v h k =
    let fits : ltb r (2 ^ 256) ≡ true = ground arith in
    let fits' : ltb s (2 ^ 256) ≡ true = ground arith in rw (fits, fits') refl

module _ (lib : Libraries) (digest : List ℕ) (r s : ℕ) (h : r < 256 ^ 32) (k : s < 256 ^ 32) where
  -- The address that a packed signature recovers is that of its numbers.
  recover_packed :
      (v : ℕ) → v ≤ 1 → recover_address lib digest (text_of_vrs r s v) ≡ lib.recover v r s digest
  unfolding recover_address
  recover_packed v small =
      let bytes = big_endian_bytes 32 r ++ (big_endian_bytes 32 s ++ ((v + 27) ∷ [])) in
      let raw = to_bytes-0x bytes (packed_bytes r s (v + 27) (omega arith)) in
      let last : recovery_id (v + 27) ≡ v = ground arith in
      let fits : leb v 1 ≡ true = ground arith in
      rw
        (
          raw,
          packed_length r s (v + 27),
          last_of_packed r s (v + 27),
          last,
          fits,
          take-word r (big_endian_bytes 32 s ++ ((v + 27) ∷ [])),
          drop-word r (big_endian_bytes 32 s ++ ((v + 27) ∷ [])),
          take-word s ((v + 27) ∷ []),
          read-word r h,
          read-word s k,
        )
        refl

-- A signature of these numbers, with one of the two recovery ids, from which the address is recovered.
pub record IsSigned (lib : Libraries) (digest : List ℕ) (r s : ℕ) (address : String)
    (result : Result String) : Type 0 where
  pub v : ℕ
  pub returned : result ≡ ok (text_of_vrs r s v)
  pub recovered : recover_address lib digest (text_of_vrs r s v) ≡ some address

not_here : {A B : Type 0} → A ⊎ B → ¬ A → B
not_here (inl a) h = absurd (h a)
not_here (inr b) h = b

module _ (lib : Libraries) (digest : List ℕ) (r s : ℕ) (h : r < 256 ^ 32) (k : s < 256 ^ 32)
    (address : String) where
  candidate_packed :
      (v : ℕ) (rest : Result String)
      → v ≤ 1
      → candidate lib r (pos s) digest address v rest
        ≡ tried (lib.recover v r s digest) address (ok (text_of_vrs r s v)) rest
  candidate_packed v rest small =
      rw (packed_lem r s v h k, recover_packed lib digest r s h k v small) refl

  tried-IsSigned :
      (v : ℕ) (rest : Result String) (recovered : Option String)
      → v ≤ 1
      → lib.recover v r s digest ≡ recovered
      → (recovered ≡ some address) ⊎ IsSigned lib digest r s address rest
      → IsSigned lib digest r s address (tried recovered address (ok (text_of_vrs r s v)) rest)
  tried-IsSigned v rest none small e (inl same) = ground arith
  tried-IsSigned v rest none small e (inr later) = later
  tried-IsSigned v rest (some found) small e later = elim (Bool-cases (found == address)) [
    | inl same ↦ rw same (record {
      v = v;
      returned = refl;
      recovered =
          recover_packed lib digest r s h k v small
          ∙ e
          ∙ ap (λ x. some x) ((eq_iff found address).0 same);
    })
    | inr other ↦ rw other (not_here later (λ same. ground (arith, eq_iff found address)))
  ]

  -- The loop finds the recovery id, if one of the two recovers the address.
  pack-IsSigned :
      (v : ℕ)
      → v ≤ 1
      → lib.recover v r s digest ≡ some address
      → IsSigned lib digest r s address (pack lib r (pos s) digest address)
  unfolding pack
  pack-IsSigned zero small e =
      rw
        (candidate_packed 0 (candidate lib r (pos s) digest address 1 (err value_error))
          (omega arith))
        (tried-IsSigned 0 _ (lib.recover 0 r s digest) (omega arith) refl (inl e))
  pack-IsSigned (suc zero) small e =
      rw
        (candidate_packed 0 (candidate lib r (pos s) digest address 1 (err value_error))
          (omega arith))
        (tried-IsSigned 0 _ (lib.recover 0 r s digest) (omega arith) refl (
          inr (
            rw (candidate_packed 1 (err value_error) (omega arith))
              (tried-IsSigned 1 _ (lib.recover 1 r s digest) (omega arith) refl (inl e)))))
  pack-IsSigned (suc (suc v)) small e = absurd (omega arith)

-- Where KMS answers with the DER form of r and s, and one of the two recovery ids recovers the key's address from r and
-- the lower of s and its twin, sign returns the text of these three numbers: it recovers the key's address, and its s is
-- at most half the order of the curve.
pub sign-der_of :
    (lib : Libraries) (digest : List ℕ) (address : String) (n : ℕ) (rs ss : List ℕ) (v : ℕ)
    → big_endian 0 rs < curve_order
    → big_endian 0 ss < curve_order
    → v ≤ 1
    → lib.recover v (big_endian 0 rs) (low_half (big_endian 0 ss)) digest ≡ some address
    → IsSigned lib digest
        (big_endian 0 rs)
        (low_half (big_endian 0 ss))
        address
        (sign lib (der_of n rs ss) address digest)
      × (low_half (big_endian 0 ss) ≤ half_curve_order)
unfolding sign
sign-der_of lib digest address n rs ss v hr hs small e =
    let low = low_half-le (big_endian 0 ss) (omega arith) in
    (
      rw (parse-der_of n rs ss, low.0)
          (pack-IsSigned lib digest (big_endian 0 rs) (low_half (big_endian 0 ss)) (omega arith)
            (omega (arith, low.1)) address v small e),
      low.1,
    )
