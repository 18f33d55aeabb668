-- ===== src/Signing/Kms/Packed.antt =====
-- What src/trustrail/signing packs into a text is read back from it.
use Prim.Native.String.append
use native.Mathlib.Nat.{div-div-eq-div-mul, pow-suc, div-eq_of_lt}
use cpfbuddies.Prelude.{
  ℕ, zero, suc, ◌+◌, ◌*◌, ◌/◌, ◌%◌, ◌^◌, ◌<◌, String, ◌<>◌, ◌≡◌, refl, sym, ◌∙◌, ap, List, [], ◌∷◌,
  ◌++◌, length, length-append, arith,
}
use cpfbuddies.Prelude.Text.{to_hex, AreBytes, from_hex-to_hex}
use cpfbuddies.Signing.Crypto.{to_bytes, big_endian, take, drop}
use cpfbuddies.Signing.Eip712.{big_endian_bytes}

-- From what stands above the last n bytes, reading these gives the whole number.
big_endian-big_endian_bytes :
    (n value : ℕ) → big_endian (value / 256 ^ n) (big_endian_bytes n value) ≡ value
unfolding big_endian big_endian_bytes
big_endian-big_endian_bytes zero value = omega arith
big_endian-big_endian_bytes (suc n) value =
    let q = value / 256 ^ n in
    let above : value / 256 ^ suc n ≡ q / 256 =
      ap (λ m. value / m) (pow-suc 256 n) ∙ sym (div-div-eq-div-mul value (256 ^ n) 256) in
    let next : value / 256 ^ suc n * 256 + q % 256 ≡ q = omega (arith, above) in
    ap (λ acc. big_endian acc (big_endian_bytes n value)) next ∙ big_endian-big_endian_bytes n value

pub read-word : (value : ℕ) → value < 256 ^ 32 → big_endian 0 (big_endian_bytes 32 value) ≡ value
read-word value h =
    let none_above : value / 256 ^ 32 ≡ 0 = div-eq_of_lt h in
    ap (λ acc. big_endian acc (big_endian_bytes 32 value)) (sym none_above)
    ∙ big_endian-big_endian_bytes 32 value

big_endian_bytes-AreBytes : (n value : ℕ) → AreBytes (big_endian_bytes n value)
unfolding big_endian_bytes
big_endian_bytes-AreBytes zero value = tt
big_endian_bytes-AreBytes (suc n) value = (omega arith, big_endian_bytes-AreBytes n value)

length-big_endian_bytes : (n value : ℕ) → length (big_endian_bytes n value) ≡ n
unfolding big_endian_bytes
length-big_endian_bytes zero value = refl
length-big_endian_bytes (suc n) value = omega (arith, length-big_endian_bytes n value)

AreBytes-append : (xs ys : List ℕ) → AreBytes xs → AreBytes ys → AreBytes (xs ++ ys)
AreBytes-append [] ys h k = k
AreBytes-append (x ∷ xs) ys h k = (h.0, AreBytes-append xs ys h.1 k)

-- The first n bytes, and the others
pub take-append : (xs ys : List ℕ) → take (length xs) (xs ++ ys) ≡ xs
take-append [] ys = refl
take-append (x ∷ xs) ys = ap (λ zs. x ∷ zs) (take-append xs ys)

pub drop-append : (xs ys : List ℕ) → drop (length xs) (xs ++ ys) ≡ ys
drop-append [] ys = refl
drop-append (x ∷ xs) ys = drop-append xs ys

pub take-word :
    (value : ℕ) (ys : List ℕ)
    → take 32 (big_endian_bytes 32 value ++ ys) ≡ big_endian_bytes 32 value
take-word value ys =
    ap (λ n. take n (big_endian_bytes 32 value ++ ys)) (sym (length-big_endian_bytes 32 value))
    ∙ take-append (big_endian_bytes 32 value) ys

pub drop-word : (value : ℕ) (ys : List ℕ) → drop 32 (big_endian_bytes 32 value ++ ys) ≡ ys
drop-word value ys =
    ap (λ n. drop n (big_endian_bytes 32 value ++ ys)) (sym (length-big_endian_bytes 32 value))
    ∙ drop-append (big_endian_bytes 32 value) ys

pub to_bytes-0x : (bs : List ℕ) → AreBytes bs → to_bytes ("0x" <> to_hex bs) ≡ bs
unfolding to_bytes
to_bytes-0x bs h =
    let t = to_hex bs in
    let behind_x = append.cons "x" "" t ∙ ap (λ s. String.◌∷◌ "x" s) (append.nil t) in
    let shown = append.cons "0" "x" t ∙ ap (λ s. String.◌∷◌ "0" s) behind_x in
    ap to_bytes shown ∙ from_hex-to_hex bs h

drop_nil : (n : ℕ) → drop n [] ≡ []
drop_nil zero = refl
drop_nil (suc n) = refl

drop-add : (n m : ℕ) (xs : List ℕ) → drop (n + m) xs ≡ drop m (drop n xs)
drop-add zero m xs = let e : zero + m ≡ m = omega arith in ap (λ k. drop k xs) e
drop-add (suc n) m [] = drop_nil (suc n + m) ∙ sym (drop_nil m)
drop-add (suc n) m (x ∷ xs) =
    let e : suc n + m ≡ suc (n + m) = omega arith in ap (λ k. drop k (x ∷ xs)) e ∙ drop-add n m xs

-- The 65 bytes of a signature
pub packed_bytes :
    (r s v : ℕ) → v < 256 → AreBytes (big_endian_bytes 32 r ++ (big_endian_bytes 32 s ++ (v ∷ [])))
packed_bytes r s v h =
    AreBytes-append _ _ (big_endian_bytes-AreBytes 32 r)
      (AreBytes-append _ _ (big_endian_bytes-AreBytes 32 s) (h, tt))

pub packed_length :
    (r s v : ℕ) → length (big_endian_bytes 32 r ++ (big_endian_bytes 32 s ++ (v ∷ []))) ≡ 65
packed_length r s v =
    let rest = length-append (big_endian_bytes 32 s) (v ∷ []) in
    let whole = length-append (big_endian_bytes 32 r) (big_endian_bytes 32 s ++ (v ∷ [])) in
    omega (arith, rest, whole, length-big_endian_bytes 32 r, length-big_endian_bytes 32 s)

pub last_of_packed :
    (r s v : ℕ) → drop 64 (big_endian_bytes 32 r ++ (big_endian_bytes 32 s ++ (v ∷ []))) ≡ v ∷ []
last_of_packed r s v =
    drop-add 32 32 (big_endian_bytes 32 r ++ (big_endian_bytes 32 s ++ (v ∷ [])))
    ∙ ap (drop 32) (drop-word r (big_endian_bytes 32 s ++ (v ∷ [])))
    ∙ drop-word s (v ∷ [])
