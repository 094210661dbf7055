-- ===== src/Uid/Examples.antt =====
-- Uids of packages/stellar-sdk/src/utils/uidGenerator.ts, and the theorems at them.
use Prim.Native.String.{String}
use text.Mathlib.TextEquality.{eq_iff}
use attest_so.Prelude.{
  ℕ, ◌≡◌, refl, sym, ◌∙◌, inl, inr, List, [], ◌∷◌, ◌++◌, none, some, length, replicate, ◌is◌,
  if◌then◌else◌, Bool-cases, arith,
}
use attest_so.Delegation.Bytes.{be_bytes, write_u64_be}
use attest_so.Uid.Generator.{UidLibrary, attestation_input}
use attest_so.Uid.Inputs.{IsXdr, attestation_input-injective}
use attest_so.Uid.Format.{format_uid}

-- A library that knows one account.
abbrev small_library : UidLibrary
small_library = record {
  buffer_xdr = λ bytes. 13 ∷ bytes;
  text_xdr = λ t. [];
  address_xdr = λ t. if t is "GALICE" then some (18 ∷ 1 ∷ []) else none;
  keccak256 = λ bytes. bytes;
  sha256 = λ bytes. bytes;
}

is_alice :
    (t : String) (x : List ℕ)
    → small_library.address_xdr t ≡ some x
    → (t ≡ "GALICE") × (18 ∷ 1 ∷ [] ≡ x)
is_alice t x h = elim (Bool-cases (t is "GALICE")) [
  | inl same ↦ ((eq_iff t "GALICE").0 same, cc (rw same at h))
  | inr other ↦ absurd (cc (rw other at h))
]

small_library-IsXdr : IsXdr small_library
small_library-IsXdr = record {
  buffer_length = λ a b e. omega (arith, e);
  buffer_injective = λ a b e. cc;
  address_length = λ s t x y g k h l. rw (← (is_alice s x h).1, ← (is_alice t y l).1) refl;
  address_injective = λ s t x h l. (is_alice s x h).0 ∙ sym (is_alice t x l).0;
}

abbrev schema_of_alice : List ℕ
schema_of_alice = replicate 32 7

abbrev input_of_alice : List ℕ
input_of_alice = (13 ∷ schema_of_alice) ++ (18 ∷ 1 ∷ []) ++ (0 ∷ 0 ∷ 0 ∷ 0 ∷ 0 ∷ 0 ∷ 0 ∷ 3 ∷ [])

made : attestation_input small_library schema_of_alice "GALICE" 3 ≡ some input_of_alice
unfolding attestation_input write_u64_be be_bytes
made = refl

abbrev alice : String
alice = "GALICE"

abbrev third : ℕ
third = 3

attestation_input-injective_example :
    (schema_of_alice ≡ schema_of_alice) × (alice ≡ alice) × (third ≡ third)
attestation_input-injective_example =
    attestation_input-injective small_library schema_of_alice schema_of_alice alice alice third
      third input_of_alice small_library-IsXdr made made

abbrev hex : List ℕ
hex = replicate 32 97 ++ replicate 32 48

four_dashes : length (format_uid hex) ≡ 68
unfolding format_uid
four_dashes = refl
