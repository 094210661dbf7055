-- ===== src/Projection/Values.antt =====
-- apps/horizon/src/repository/backfill.repository.ts: native values of events, `convertBuffersToHex` and
-- `bufferToHex`. `bytes` is a Buffer, `json_bytes` an object with type 'Buffer' and its
-- data. Buffers are lists of numbers below 256; numbers are natural. `from_base64` is
-- `Buffer.from(text, 'base64')`.
use Prim.Native.String.{String, [], ◌∷◌}
use Prim.Native.Char.{Char, code}
use attest_so.Prelude.{
  ℕ, zero, suc, ◌/◌, ◌%◌, Bool, true, false, not, ◌&&◌, ◌||◌, List, leb, ◌==◌, truthy, decimal, ◌&◌,
  if◌then◌else◌,
}
use mathlib.Core.List.{[] as []ᴸ, ◌∷◌ as ◌∷ᴸ◌}

mutual
  pub data Native : Type 0 where
    undefined_value null_value : Native
    flag : Bool → Native
    number big : ℕ → Native
    text : String → Native
    bytes json_bytes : List ℕ → Native
    array : Natives → Native
    object : Fields → Native

  pub data Natives : Type 0 where
    natives_end : Natives
    native_item : Native → Natives → Natives

  pub data Fields : Type 0 where
    fields_end : Fields
    field_entry : String → Native → Fields → Fields

-- A digit, of a number below 16.
unfoldable pub hex_digit : ℕ → Char
hex_digit zero = "0"
hex_digit (suc zero) = "1"
hex_digit (suc (suc zero)) = "2"
hex_digit (suc (suc (suc zero))) = "3"
hex_digit (suc (suc (suc (suc zero)))) = "4"
hex_digit (suc (suc (suc (suc (suc zero))))) = "5"
hex_digit (suc (suc (suc (suc (suc (suc zero)))))) = "6"
hex_digit (suc (suc (suc (suc (suc (suc (suc zero))))))) = "7"
hex_digit (suc (suc (suc (suc (suc (suc (suc (suc zero)))))))) = "8"
hex_digit (suc (suc (suc (suc (suc (suc (suc (suc (suc zero))))))))) = "9"
hex_digit (suc (suc (suc (suc (suc (suc (suc (suc (suc (suc zero)))))))))) = "a"
hex_digit (suc (suc (suc (suc (suc (suc (suc (suc (suc (suc (suc zero))))))))))) = "b"
hex_digit (suc (suc (suc (suc (suc (suc (suc (suc (suc (suc (suc (suc zero)))))))))))) = "c"
hex_digit (suc (suc (suc (suc (suc (suc (suc (suc (suc (suc (suc (suc (suc zero))))))))))))) = "d"
hex_digit (suc (suc (suc (suc (suc (suc (suc (suc (suc (suc (suc (suc (suc (suc zero)))))))))))))) =
    "e"
hex_digit
      (suc (suc (suc (suc (suc (suc (suc (suc (suc (suc (suc (suc (suc (suc (suc n))))))))))))))) =
    "f"

-- `Buffer.toString('hex')`
unfoldable pub to_hex : List ℕ → String
to_hex []ᴸ = []
to_hex (b ∷ᴸ bs) = hex_digit (b / 16) ∷ (hex_digit (b % 16) ∷ to_hex bs)

-- `convertBuffersToHex`
unfoldable mutual
  pub convert_buffers_to_hex : Native → Native
  convert_buffers_to_hex undefined_value = undefined_value
  convert_buffers_to_hex null_value = null_value
  convert_buffers_to_hex (flag b) = flag b
  convert_buffers_to_hex (number n) = number n
  convert_buffers_to_hex (big n) = big n
  convert_buffers_to_hex (text t) = text t
  convert_buffers_to_hex (bytes bs) = text (to_hex bs)
  convert_buffers_to_hex (json_bytes bs) = text (to_hex bs)
  convert_buffers_to_hex (array vs) = array (convert_items vs)
  convert_buffers_to_hex (object fs) = object (convert_fields fs)

  pub convert_items : Natives → Natives
  convert_items natives_end = natives_end
  convert_items (native_item v vs) = native_item (convert_buffers_to_hex v) (convert_items vs)

  pub convert_fields : Fields → Fields
  convert_fields fields_end = fields_end
  convert_fields (field_entry k v fs) = field_entry k (convert_buffers_to_hex v) (convert_fields fs)

abbrev pub is_hex_char : Char → Bool
is_hex_char c =
    (leb 48 (code c) && leb (code c) 57)
    || (leb 97 (code c) && leb (code c) 102)
    || (leb 65 (code c) && leb (code c) 70)

-- Every character is a hexadecimal digit, and their number is even.
unfoldable pub is_even_hex : String → Bool
is_even_hex [] = true
is_even_hex (c ∷ []) = false
is_even_hex (c ∷ (d ∷ s)) = let rest = is_even_hex s in is_hex_char c && (is_hex_char d && rest)

-- `toLowerCase`, of a hexadecimal digit.
unfoldable pub lower_char : Char → Char
lower_char c =
    if code c == 65
    then "a"
    else if code c == 66
    then "b"
    else if code c == 67
    then "c"
    else if code c == 68
    then "d"
    else if code c == 69
    then "e"
    else if code c == 70
    then "f"
    else c

unfoldable pub to_lower_case : String → String
to_lower_case [] = []
to_lower_case (c ∷ s) = lower_char c ∷ to_lower_case s

-- `String(value)`
unfoldable mutual
  pub string_of : Native → String
  string_of undefined_value = "undefined"
  string_of null_value = "null"
  string_of (flag true) = "true"
  string_of (flag false) = "false"
  string_of (number n) = decimal n
  string_of (big n) = decimal n
  string_of (text t) = t
  string_of (bytes bs) = "[object Object]"
  string_of (json_bytes bs) = "[object Object]"
  string_of (array vs) = join_items vs
  string_of (object fs) = "[object Object]"

  pub join_items : Natives → String
  join_items natives_end = ""
  join_items (native_item v vs) =
      let first = item_text v in
      let rest = join_items vs in
      elim vs [ natives_end ↦ first | native_item w ws ↦ first & "," & rest ]

  pub item_text : Native → String
  item_text undefined_value = ""
  item_text null_value = ""
  item_text (flag true) = "true"
  item_text (flag false) = "false"
  item_text (number n) = decimal n
  item_text (big n) = decimal n
  item_text (text t) = t
  item_text (bytes bs) = "[object Object]"
  item_text (json_bytes bs) = "[object Object]"
  item_text (array vs) = join_items vs
  item_text (object fs) = "[object Object]"

-- The truth value of a value in a test.
abbrev is_truthy : Native → Bool
is_truthy undefined_value = false
is_truthy null_value = false
is_truthy (flag b) = b
is_truthy (number n) = not (n == 0)
is_truthy (big n) = not (n == 0)
is_truthy (text t) = truthy t
is_truthy (bytes bs) = true
is_truthy (json_bytes bs) = true
is_truthy (array vs) = true
is_truthy (object fs) = true

abbrev text_to_hex : (String → List ℕ) → String → String
text_to_hex from_base64 t = if is_even_hex t then to_lower_case t else to_hex (from_base64 t)

abbrev truthy_to_hex : (String → List ℕ) → Native → String
truthy_to_hex from_base64 (text t) = text_to_hex from_base64 t
truthy_to_hex from_base64 (bytes bs) = to_hex bs
truthy_to_hex from_base64 (json_bytes bs) = to_hex bs
truthy_to_hex from_base64 undefined_value = string_of undefined_value
truthy_to_hex from_base64 null_value = string_of null_value
truthy_to_hex from_base64 (flag b) = string_of (flag b)
truthy_to_hex from_base64 (number n) = string_of (number n)
truthy_to_hex from_base64 (big n) = string_of (big n)
truthy_to_hex from_base64 (array vs) = string_of (array vs)
truthy_to_hex from_base64 (object fs) = string_of (object fs)

-- `bufferToHex`
unfoldable pub buffer_to_hex : (String → List ℕ) → Native → String
buffer_to_hex from_base64 v = if is_truthy v then truthy_to_hex from_base64 v else ""
