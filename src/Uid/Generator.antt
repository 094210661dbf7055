-- ===== src/Uid/Generator.antt =====
-- packages/stellar-sdk/src/utils/uidGenerator.ts: the two generators. Buffers are lists of bytes;
-- `none` stands for the error that is thrown. The static types of the arguments are taken to hold.
use Prim.Native.String.{String}
use text.Mathlib.Text.{starts_with}
use attest_so.Prelude.{
  ℕ, not, List, [], ◌++◌, Option, none, some, length, ◌==◌, truthy, if◌then◌else◌, ◌>>=◌,
}
use attest_so.Delegation.Bytes.{write_u64_be}

-- The Stellar library and the hash functions. `address` is `new Address(text).toScVal().toXDR()`,
-- with `none` where the text is no address and it throws.
pub record UidLibrary : Type 0 where
  pub buffer_xdr : List ℕ → List ℕ
  pub text_xdr : String → List ℕ
  pub address_xdr : String → Option (List ℕ)
  pub keccak256 : List ℕ → List ℕ
  pub sha256 : List ℕ → List ℕ

-- What is hashed.
unfoldable pub attestation_input : UidLibrary → List ℕ → String → ℕ → Option (List ℕ)
attestation_input lib schema_uid subject nonce =
    let input : Option (List ℕ) = lib.address_xdr subject >>= (λ subject_xdr.
      write_u64_be nonce >>= λ nonce_buffer.
      some (lib.buffer_xdr schema_uid ++ (subject_xdr ++ nonce_buffer))) in
    if not (length schema_uid == 32)
    then none
    else if not (starts_with subject "G")
    then none
    else input

unfoldable generate_attestation_uid : UidLibrary → List ℕ → String → ℕ → Option (List ℕ)
unfolding attestation_input
generate_attestation_uid lib schema_uid subject nonce = do
  input ← attestation_input lib schema_uid subject nonce
  some (lib.keccak256 input)

-- An authority or a resolver that is no address is written as a text.
abbrev address_or_text : UidLibrary → String → List ℕ
address_or_text lib t = elim (lib.address_xdr t) [ some bytes ↦ bytes | none ↦ lib.text_xdr t ]

unfoldable resolver_component : UidLibrary → Option String → List ℕ
resolver_component lib none = []
resolver_component lib (some t) = if truthy t then address_or_text lib t else []

unfoldable schema_input : UidLibrary → String → String → Option String → Option (List ℕ)
unfolding resolver_component
schema_input lib definition authority resolver =
    if not (truthy definition)
    then none
    else if not (truthy authority)
    then none
    else some (
        lib.text_xdr definition
        ++ (address_or_text lib authority ++ resolver_component lib resolver))

unfoldable generate_schema_uid : UidLibrary → String → String → Option String → Option (List ℕ)
unfolding schema_input
generate_schema_uid lib definition authority resolver = do
  input ← schema_input lib definition authority resolver
  some (lib.sha256 input)
