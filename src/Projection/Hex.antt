-- ===== src/Projection/Hex.antt =====
-- The hexadecimal form of a uid.
use Prim.Native.String.{String, [], ◌∷◌}
use Prim.Native.Char.{Char, code}
use mathlib.Core.List.{[] as []ᴸ, ◌∷◌ as ◌∷ᴸ◌}
use package.text.Mathlib.TextEquality.{eq_iff}
use attest_so.Prelude.{
  ℕ, zero, suc, ◌+◌, ◌-◌, ◌*◌, ◌/◌, ◌%◌, ◌<◌, ◌≡◌, refl, sym, ap, ◌∙◌, true, ◌&&◌, List, Option,
  none, some, All, inl, inr, Bool-cases, ◌is◌, leb, truthy, if◌then◌else◌, arith,
}
use attest_so.Projection.Values.{
  bytes, text, hex_digit, to_hex, convert_buffers_to_hex, is_hex_char, is_even_hex, lower_char,
  to_lower_case, buffer_to_hex,
}

unfoldable pub hex_value : Char → Option ℕ
hex_value c =
    if leb 48 (code c) && leb (code c) 57
    then some (code c - 48)
    else if leb 97 (code c) && leb (code c) 102
    then some (code c - 87)
    else if leb 65 (code c) && leb (code c) 70
    then some (code c - 55)
    else none

-- `Buffer.from(text, 'hex')`: the pairs of digits, up to the first that is none.
unfoldable pub from_hex : String → List ℕ
from_hex [] = []ᴸ
from_hex (c ∷ []) = []ᴸ
from_hex (c ∷ (d ∷ s)) =
    let rest = from_hex s in
    elim (hex_value c) [
      | none ↦ []ᴸ
      | some m ↦ elim (hex_value d) [ none ↦ []ᴸ | some n ↦ (m * 16 + n) ∷ᴸ rest ]
    ]

abbrev AreBytes : List ℕ → Type 0
AreBytes bs = All (λ b. b < 256) bs

hex_digit_lem :
    (n : ℕ)
    → n < 16
    → (hex_value (hex_digit n) ≡ some n)
      × (is_hex_char (hex_digit n) ≡ true)
      × (lower_char (hex_digit n) ≡ hex_digit n)
unfolding hex_digit lower_char hex_value
hex_digit_lem zero h = (refl, refl, refl)
hex_digit_lem (suc zero) h = (refl, refl, refl)
hex_digit_lem (suc (suc zero)) h = (refl, refl, refl)
hex_digit_lem (suc (suc (suc zero))) h = (refl, refl, refl)
hex_digit_lem (suc (suc (suc (suc zero)))) h = (refl, refl, refl)
hex_digit_lem (suc (suc (suc (suc (suc zero))))) h = (refl, refl, refl)
hex_digit_lem (suc (suc (suc (suc (suc (suc zero)))))) h = (refl, refl, refl)
hex_digit_lem (suc (suc (suc (suc (suc (suc (suc zero))))))) h = (refl, refl, refl)
hex_digit_lem (suc (suc (suc (suc (suc (suc (suc (suc zero)))))))) h = (refl, refl, refl)
hex_digit_lem (suc (suc (suc (suc (suc (suc (suc (suc (suc zero))))))))) h = (refl, refl, refl)
hex_digit_lem (suc (suc (suc (suc (suc (suc (suc (suc (suc (suc zero)))))))))) h =
    (refl, refl, refl)
hex_digit_lem (suc (suc (suc (suc (suc (suc (suc (suc (suc (suc (suc zero))))))))))) h =
    (refl, refl, refl)
hex_digit_lem (suc (suc (suc (suc (suc (suc (suc (suc (suc (suc (suc (suc zero)))))))))))) h =
    (refl, refl, refl)
hex_digit_lem (suc (suc (suc (suc (suc (suc (suc (suc (suc (suc (suc (suc (suc zero))))))))))))) h =
    (refl, refl, refl)
hex_digit_lem
      (suc (suc (suc (suc (suc (suc (suc (suc (suc (suc (suc (suc (suc (suc zero)))))))))))))) h =
    (refl, refl, refl)
hex_digit_lem
      (suc (suc (suc (suc (suc (suc (suc (suc (suc (suc (suc (suc (suc (suc (suc zero)))))))))))))))
      h =
    (refl, refl, refl)
hex_digit_lem
      (suc
        (suc (suc (suc (suc (suc (suc (suc (suc (suc (suc (suc (suc (suc (suc (suc n))))))))))))))))
      h =
    absurd (omega arith)

from_hex-to_hex : (bs : List ℕ) → AreBytes bs → from_hex (to_hex bs) ≡ bs
unfolding from_hex to_hex
from_hex-to_hex []ᴸ h = refl
from_hex-to_hex (b ∷ᴸ bs) (small, h) =
    let (high, p, q) = hex_digit_lem (b / 16) (omega arith) in
    let (low, r, s) = hex_digit_lem (b % 16) (omega arith) in
    let value : b / 16 * 16 + b % 16 ≡ b = omega arith in
    rw (high, from_hex, low, value) (ap (λ t. b ∷ᴸ t) (from_hex-to_hex bs h))

is_even_hex-to_hex : (bs : List ℕ) → AreBytes bs → is_even_hex (to_hex bs) ≡ true
unfolding is_even_hex to_hex
is_even_hex-to_hex []ᴸ h = refl
is_even_hex-to_hex (b ∷ᴸ bs) (small, h) =
    let (high, p, q) = hex_digit_lem (b / 16) (omega arith) in
    let (low, r, s) = hex_digit_lem (b % 16) (omega arith) in
    rw (p, r, is_even_hex-to_hex bs h) refl

to_lower_case-to_hex : (bs : List ℕ) → AreBytes bs → to_lower_case (to_hex bs) ≡ to_hex bs
unfolding to_lower_case to_hex
to_lower_case-to_hex []ᴸ h = refl
to_lower_case-to_hex (b ∷ᴸ bs) (small, h) =
    let (high, p, q) = hex_digit_lem (b / 16) (omega arith) in
    let (low, r, s) = hex_digit_lem (b % 16) (omega arith) in
    rw (q, s, to_lower_case-to_hex bs h) refl

-- The uid of a buffer.
uid_of_bytes :
    (from_base64 : String → List ℕ) (bs : List ℕ) → buffer_to_hex from_base64 (bytes bs) ≡ to_hex bs
unfolding buffer_to_hex
uid_of_bytes from_base64 bs = refl

truthy_cons : (c : Char) (s : String) → truthy (c ∷ s) ≡ true
truthy_cons c s = elim (Bool-cases ((c ∷ s) is "")) [
  | inl empty ↦ absurd (cc ((eq_iff (c ∷ s) "").0 empty))
  | inr filled ↦ rw filled refl
]

truthy-to_hex : (b : ℕ) (bs : List ℕ) → truthy (to_hex (b ∷ᴸ bs)) ≡ true
unfolding to_hex
truthy-to_hex b bs = truthy_cons (hex_digit (b / 16)) _

uid_of_text :
    (from_base64 : String → List ℕ) (bs : List ℕ)
    → AreBytes bs
    → buffer_to_hex from_base64 (text (to_hex bs)) ≡ to_hex bs
unfolding buffer_to_hex
uid_of_text from_base64 []ᴸ h = unfold to_hex in refl
uid_of_text from_base64 (b ∷ᴸ bs) h =
    rw (truthy-to_hex b bs, is_even_hex-to_hex (b ∷ᴸ bs) h, to_lower_case-to_hex (b ∷ᴸ bs) h) refl

-- A uid that an event carries as a buffer has one hexadecimal form, whether `bufferToHex` meets the
-- buffer itself or the text that `convertBuffersToHex` has made of it; and that form, read as the SDK
-- reads the uids of the indexer, gives the buffer back. Two uids are never stored under one key.
pub uid_round_trip :
    (from_base64 : String → List ℕ) (bs : List ℕ)
    → AreBytes bs
    → (buffer_to_hex from_base64 (convert_buffers_to_hex (bytes bs))
        ≡ buffer_to_hex from_base64 (bytes bs))
      × (from_hex (buffer_to_hex from_base64 (bytes bs)) ≡ bs)
unfolding convert_buffers_to_hex
uid_round_trip from_base64 bs h = (
  uid_of_text from_base64 bs h ∙ sym (uid_of_bytes from_base64 bs),
  ap from_hex (uid_of_bytes from_base64 bs) ∙ from_hex-to_hex bs h,
)
