-- ===== src/Delegation/Examples.antt =====
-- Delegated requests of packages/stellar-sdk/src/delegation.ts, and the theorems at them.
use attest_so.Prelude.{ℕ, ◌≡◌, ◌≢◌, refl, ap, ◌↔◌, List, [], ◌∷◌, none, some, replicate, arith}
use attest_so.Delegation.Bytes.{be_bytes, write_u64_be}
use attest_so.Delegation.Messages.{
  AttestationRequest, attest_bytes, get_attest_dst, get_revoke_dst,
  create_delegated_attestation_request,
}
use attest_so.Delegation.Binding.{IsWellFormed, SameSigned, attest_bytes-binds}

-- The value is given by its UTF-16 code units.
abbrev degree : AttestationRequest
degree = record {
  schema_uid = replicate 32 7;
  subject = "GALICE";
  attester = "GUNIVERSITY";
  value = 66 ∷ 83 ∷ [];
  nonce = 4;
  deadline = 1700000000;
  expiration_time = none;
}

-- Somebody else, and other contents of the same length.
abbrev forged : AttestationRequest
forged = record degree { subject = "GMALLORY"; value = 77 ∷ 65 ∷ [] }

degree-IsWellFormed : IsWellFormed degree
degree-IsWellFormed = record {
  schema_uid = refl;
  nonce = omega arith;
  deadline = omega arith;
  expiration_time = tt;
  value = omega arith;
}

forged-IsWellFormed : IsWellFormed forged
forged-IsWellFormed = record {
  schema_uid = refl;
  nonce = omega arith;
  deadline = omega arith;
  expiration_time = tt;
  value = omega arith;
}

attest_bytes-binds_example :
    (attest_bytes degree (1 ∷ 2 ∷ []) ≡ attest_bytes forged (1 ∷ 2 ∷ [])) ↔ SameSigned degree forged
attest_bytes-binds_example =
    attest_bytes-binds degree forged (1 ∷ 2 ∷ []) degree-IsWellFormed forged-IsWellFormed

abbrev first_byte : List ℕ → ℕ
first_byte [] = 0
first_byte (b ∷ bs) = b

tags_differ : get_attest_dst none ≢ get_revoke_dst none
unfolding get_attest_dst get_revoke_dst
tags_differ e = omega (arith, ap first_byte e)

four_in_eight_bytes : write_u64_be 260 ≡ some (0 ∷ 0 ∷ 0 ∷ 0 ∷ 0 ∷ 0 ∷ 1 ∷ 4 ∷ [])
unfolding write_u64_be be_bytes
four_in_eight_bytes = refl

-- The nonce is the contract's, whatever the caller gives.
the_contract_gives_the_nonce :
    create_delegated_attestation_request
      (λ a. some 8)
      (record {
        schema_uid = [];
        subject = "GALICE";
        attester = "GUNIVERSITY";
        value = [];
        nonce = some 3;
        deadline = 9;
        expiration_time = some 0;
      })
    ≡ some (record {
      schema_uid = [];
      subject = "GALICE";
      attester = "GUNIVERSITY";
      value = [];
      nonce = 8;
      deadline = 9;
      expiration_time = none;
    })
unfolding create_delegated_attestation_request
the_contract_gives_the_nonce = refl
