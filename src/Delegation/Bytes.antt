-- ===== src/Delegation/Bytes.antt =====
-- Numbers as bytes, as `Buffer.writeBigUInt64BE` writes them, and bytes put in a row.
use attest_so.Prelude.{
  ℕ, zero, suc, ◌+◌, ◌*◌, ◌/◌, ◌%◌, ◌^◌, ◌<◌, ◌≡◌, refl, sym, ap, ◌∙◌, List, [], ◌∷◌, ◌++◌, Option,
  none, some, length, length-append, ltb, if◌then◌else◌, arith,
}

-- The low `width` bytes of a number, the highest first.
unfoldable pub be_bytes : ℕ → ℕ → List ℕ
be_bytes zero n = []
be_bytes (suc width) n = be_bytes width (n / 256) ++ (n % 256) ∷ []

-- `writeBigUInt64BE`, which throws where the number does not fit.
unfoldable pub write_u64_be : ℕ → Option (List ℕ)
write_u64_be n = if ltb n (2 ^ 64) then some (be_bytes 8 n) else none

decode_from : ℕ → List ℕ → ℕ
decode_from acc [] = acc
decode_from acc (b ∷ bs) = decode_from (acc * 256 + b) bs

decode_from-append :
    (acc : ℕ) (xs : List ℕ) (b : ℕ) → decode_from acc (xs ++ b ∷ []) ≡ decode_from acc xs * 256 + b
unfolding decode_from
decode_from-append acc [] b = refl
decode_from-append acc (x ∷ xs) b = decode_from-append (acc * 256 + x) xs b

shrink : (n x : ℕ) → n < 256 * x → n / 256 < x
shrink n x h = omega arith

decode_from-be_bytes : (width n : ℕ) → n < 256 ^ width → decode_from 0 (be_bytes width n) ≡ n
unfolding decode_from be_bytes
decode_from-be_bytes zero n h = omega arith
decode_from-be_bytes (suc width) n h =
    let ih = decode_from-be_bytes width (n / 256) (shrink n (256 ^ width) (grind arith)) in
    decode_from-append 0 (be_bytes width (n / 256)) (n % 256) ∙ omega (arith, ih)

pub be_bytes-injective :
    (width n m : ℕ)
    → n < 256 ^ width
    → m < 256 ^ width
    → be_bytes width n ≡ be_bytes width m
    → n ≡ m
be_bytes-injective width n m h k e =
    sym (decode_from-be_bytes width n h) ∙ ap (decode_from 0) e ∙ decode_from-be_bytes width m k

pub length-be_bytes : (width n : ℕ) → length (be_bytes width n) ≡ width
unfolding be_bytes
length-be_bytes zero n = refl
length-be_bytes (suc width) n = omega (
  arith,
  length-append (be_bytes width (n / 256)) ((n % 256) ∷ []),
  length-be_bytes width (n / 256),
)

pub append-injective {ℓ} :
    {A : Type ℓ} (xs ys : List A) {rs ts : List A}
    → length xs ≡ length ys
    → xs ++ rs ≡ ys ++ ts
    → (xs ≡ ys) × (rs ≡ ts)
append-injective [] [] h e = (refl, e)
append-injective [] (y ∷ ys) h e = absurd (omega arith)
append-injective (x ∷ xs) [] h e = absurd (omega arith)
append-injective (x ∷ xs) (y ∷ ys) {rs} {ts} h e =
    let rest : xs ++ rs ≡ ys ++ ts = cc in
    let (p, q) = append-injective xs ys (omega arith) rest in
    let head : x ≡ y = cc in (cc (p, head), q)
