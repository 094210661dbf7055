-- ===== src/Uid/Inputs.antt =====
-- What the uid of an attestation is the hash of.
use Prim.Native.String.{String}
use text.Mathlib.Text.{starts_with}
use mathlib.Core.Option.{some_inj}
use attest_so.Prelude.{
  ℕ, ◌^◌, ◌<◌, ◌≡◌, sym, ◌∙◌, inl, inr, true, List, ◌++◌, some, length, ◌==◌, ==_iff, ltb, ltb→lt,
  Bool-cases, Option-cases, arith,
}
use attest_so.Delegation.Bytes.{be_bytes, write_u64_be, be_bytes-injective, append-injective}
use attest_so.Uid.Generator.{UidLibrary, attestation_input}

-- The XDR of a buffer is as long as that of another of the same length, the XDR of an account's
-- address as long as that of another account, and both determine what they encode.
pub record IsXdr (lib : UidLibrary) : Type 0 where
  pub buffer_length :
      (a b : List ℕ) → length a ≡ length b → length (lib.buffer_xdr a) ≡ length (lib.buffer_xdr b)
  pub buffer_injective : (a b : List ℕ) → lib.buffer_xdr a ≡ lib.buffer_xdr b → a ≡ b
  pub address_length :
      (s t : String) (x y : List ℕ)
      → starts_with s "G" ≡ true
      → starts_with t "G" ≡ true
      → lib.address_xdr s ≡ some x
      → lib.address_xdr t ≡ some y
      → length x ≡ length y
  pub address_injective :
      (s t : String) (x : List ℕ) → lib.address_xdr s ≡ some x → lib.address_xdr t ≡ some x → s ≡ t

-- The parts of an input that was made.
record Parts (lib : UidLibrary) (uid : List ℕ) (subject : String) (nonce : ℕ) (x : List ℕ)
    : Type 0 where
  address : List ℕ
  known : lib.address_xdr subject ≡ some address
  account : starts_with subject "G" ≡ true
  uid_length : length uid ≡ 32
  small : nonce < 2 ^ 64
  whole : x ≡ lib.buffer_xdr uid ++ (address ++ be_bytes 8 nonce)

input-Parts :
    (lib : UidLibrary) (uid : List ℕ) (subject : String) (nonce : ℕ) (x : List ℕ)
    → attestation_input lib uid subject nonce ≡ some x
    → Parts lib uid subject nonce x
unfolding attestation_input write_u64_be
input-Parts lib uid subject nonce x h = elim (Bool-cases (length uid == 32)) [
  | inr short ↦ absurd (cc (rw short at h))
  | inl fits ↦ elim (Bool-cases (starts_with subject "G")) [
    | inr other ↦ absurd (cc (rw (fits, other) at h))
    | inl account ↦ elim (Option-cases (lib.address_xdr subject)) [
      | inl unknown ↦ absurd (cc (rw (fits, account, unknown) at h))
      | inr (address, known) ↦ elim (Bool-cases (ltb nonce (2 ^ 64))) [
        | inr wide ↦ absurd (cc (rw (fits, account, known, wide) at h))
        | inl small ↦ record {
          address = address;
          known = known;
          account = account;
          uid_length = (==_iff (length uid) 32).0 fits;
          small = ltb→lt nonce (2 ^ 64) small;
          whole = sym (some_inj.0 (rw (fits, account, known, small) at h));
        }
      ]
    ]
  ]
]

-- Two attestations have one input of the hash only if they have one schema, one subject and one
-- nonce: their uids are then equal only where the hash function collides.
pub attestation_input-injective :
    (lib : UidLibrary) (u v : List ℕ) (s t : String) (n m : ℕ) (x : List ℕ)
    → IsXdr lib
    → attestation_input lib u s n ≡ some x
    → attestation_input lib v t m ≡ some x
    → (u ≡ v) × (s ≡ t) × (n ≡ m)
attestation_input-injective lib u v s t n m x xdr h k =
    let p = input-Parts lib u s n x h in
    let q = input-Parts lib v t m x k in
    let (uids, rest) =
      append-injective (lib.buffer_xdr u) (lib.buffer_xdr v)
        (xdr.buffer_length u v (p.uid_length ∙ sym q.uid_length)) (sym p.whole ∙ q.whole) in
    let (addresses, nonces) =
      append-injective p.address q.address
        (xdr.address_length s t p.address q.address p.account q.account p.known q.known) rest in
    (
      xdr.buffer_injective u v uids,
      xdr.address_injective s t q.address (rw (← addresses) p.known) q.known,
      be_bytes-injective 8 n m (omega (arith, p.small)) (omega (arith, q.small)) nonces,
    )
