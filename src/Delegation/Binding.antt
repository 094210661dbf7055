-- ===== src/Delegation/Binding.antt =====
-- What a signed message of packages/stellar-sdk/src/delegation.ts binds.
use mathlib.Core.Option.{some_inj}
use attest_so.Prelude.{
  ℕ, ◌^◌, ◌<◌, ◌≡◌, ◌≢◌, refl, sym, ap, ◌∙◌, ◌↔◌, List, [], ◌++◌, Option, none, some, length,
  length-append, arith, lt→ltb, Option-cases, inl, inr,
}
use attest_so.Delegation.Bytes.{
  be_bytes, write_u64_be, be_bytes-injective, length-be_bytes, append-injective,
}
use attest_so.Delegation.Messages.{
  AttestationRequest, RevocationRequest, expiration_bytes, attest_bytes, revoke_bytes,
}

abbrev IsU64 : ℕ → Type 0
IsU64 n = n < 2 ^ 64

abbrev IsOptionalU64 : Option ℕ → Type 0
IsOptionalU64 none = Unit
IsOptionalU64 (some n) = IsU64 n

-- A uid of 32 bytes, and numbers of 64 bits.
pub record IsWellFormed (r : AttestationRequest) : Type 0 where
  pub schema_uid : length r.schema_uid ≡ 32
  pub nonce : IsU64 r.nonce
  pub deadline : IsU64 r.deadline
  pub expiration_time : IsOptionalU64 r.expiration_time
  pub value : IsU64 (length r.value)

-- The fields that the message is made of.
pub record SameSigned (r s : AttestationRequest) : Type 0 where
  pub schema_uid : r.schema_uid ≡ s.schema_uid
  pub nonce : r.nonce ≡ s.nonce
  pub deadline : r.deadline ≡ s.deadline
  pub expiration_time : r.expiration_time ≡ s.expiration_time
  pub value : length r.value ≡ length s.value

written : (n : ℕ) → IsU64 n → write_u64_be n ≡ some (be_bytes 8 n)
unfolding write_u64_be
written n h = rw (lt→ltb n (2 ^ 64) h) refl

abbrev tail_bytes : Option ℕ → List ℕ
tail_bytes none = []
tail_bytes (some t) = be_bytes 8 t

expiration-written : (t : Option ℕ) → IsOptionalU64 t → expiration_bytes t ≡ some (tail_bytes t)
unfolding expiration_bytes
expiration-written none h = refl
expiration-written (some t) h = written t h

-- The layout of the message.
abbrev layout : AttestationRequest → List ℕ → List ℕ
layout r dst =
    dst
    ++ (r.schema_uid
        ++ (be_bytes 8 r.nonce
            ++ (be_bytes 8 r.deadline
                ++ (tail_bytes r.expiration_time ++ be_bytes 8 (length r.value)))))

attest_bytes-layout :
    (r : AttestationRequest) (dst : List ℕ)
    → IsWellFormed r
    → attest_bytes r dst ≡ some (layout r dst)
unfolding attest_bytes
attest_bytes-layout r dst w =
    rw
      (
        written r.nonce w.nonce,
        written r.deadline w.deadline,
        expiration-written r.expiration_time w.expiration_time,
        written (length r.value) w.value,
      )
      refl

u64-injective : (n m : ℕ) → IsU64 n → IsU64 m → be_bytes 8 n ≡ be_bytes 8 m → n ≡ m
u64-injective n m h k e = be_bytes-injective 8 n m (omega arith) (omega arith) e

same_length : (n m : ℕ) → length (be_bytes 8 n) ≡ length (be_bytes 8 m)
same_length n m = omega (arith, length-be_bytes 8 n, length-be_bytes 8 m)

-- The end of the message: the expiration, if any, and the length of the value.
ends-injective :
    (s t : Option ℕ) (n m : ℕ)
    → IsOptionalU64 s
    → IsOptionalU64 t
    → IsU64 n
    → IsU64 m
    → tail_bytes s ++ be_bytes 8 n ≡ tail_bytes t ++ be_bytes 8 m
    → (s ≡ t) × (n ≡ m)
ends-injective none none n m p q h k e = (refl, u64-injective n m h k e)
ends-injective (some a) (some b) n m p q h k e =
    let (l, r) = append-injective (be_bytes 8 a) (be_bytes 8 b) (same_length a b) e in
    (ap some (u64-injective a b p q l), u64-injective n m h k r)
ends-injective none (some b) n m p q h k e = absurd (
    omega (
      arith,
      ap length e,
      length-append (be_bytes 8 b) (be_bytes 8 m),
      length-be_bytes 8 n,
      length-be_bytes 8 m,
      length-be_bytes 8 b,
    ))
ends-injective (some a) none n m p q h k e = absurd (
    omega (
      arith,
      ap length e,
      length-append (be_bytes 8 a) (be_bytes 8 n),
      length-be_bytes 8 n,
      length-be_bytes 8 m,
      length-be_bytes 8 a,
    ))

layout-injective :
    (r s : AttestationRequest) (dst : List ℕ)
    → IsWellFormed r
    → IsWellFormed s
    → layout r dst ≡ layout s dst
    → SameSigned r s
layout-injective r s dst v w e =
    let (a, e1) = append-injective dst dst refl e in
    let (uid, e2) =
      append-injective r.schema_uid s.schema_uid (v.schema_uid ∙ sym w.schema_uid) e1 in
    let (nonce, e3) =
      append-injective (be_bytes 8 r.nonce) (be_bytes 8 s.nonce) (same_length r.nonce s.nonce) e2 in
    let (deadline, e4) =
      append-injective (be_bytes 8 r.deadline) (be_bytes 8 s.deadline)
        (same_length r.deadline s.deadline) e3 in
    let (expires, size) =
      ends-injective r.expiration_time s.expiration_time (length r.value) (length s.value)
        v.expiration_time w.expiration_time v.value w.value e4 in
    record {
      schema_uid = uid;
      nonce = u64-injective r.nonce s.nonce v.nonce w.nonce nonce;
      deadline = u64-injective r.deadline s.deadline v.deadline w.deadline deadline;
      expiration_time = expires;
      value = size;
    }

layout-SameSigned :
    (r s : AttestationRequest) (dst : List ℕ) → SameSigned r s → layout r dst ≡ layout s dst
layout-SameSigned r s dst m =
    rw (m.schema_uid, m.nonce, m.deadline, m.expiration_time, m.value) refl

-- For requests with a uid of 32 bytes and numbers of 64 bits, the messages that are signed under one
-- domain tag are equal exactly when the requests agree on the schema, the nonce, the deadline, the
-- expiration time and the length of the value. The subject, the attester and the contents of the
-- value are not part of what is signed.
pub attest_bytes-binds :
    (r s : AttestationRequest) (dst : List ℕ)
    → IsWellFormed r
    → IsWellFormed s
    → (attest_bytes r dst ≡ attest_bytes s dst) ↔ SameSigned r s
attest_bytes-binds r s dst v w = (
  λ e.
      layout-injective r s dst v w
        (some_inj.0 (sym (attest_bytes-layout r dst v) ∙ e ∙ attest_bytes-layout s dst w)),
  λ m.
      attest_bytes-layout r dst v
      ∙ ap some (layout-SameSigned r s dst m)
      ∙ sym (attest_bytes-layout s dst w),
)

revoke_bytes-tagged :
    (s : RevocationRequest) (dst m : List ℕ)
    → revoke_bytes s dst ≡ some m
    → (body : List ℕ) × (m ≡ dst ++ body)
unfolding revoke_bytes
revoke_bytes-tagged s dst m h = elim (Option-cases (write_u64_be s.nonce)) [
  | inl wide ↦ absurd (cc (rw wide at h))
  | inr (nonce, fits) ↦ elim (Option-cases (write_u64_be s.deadline)) [
    | inl wide ↦ absurd (cc (rw (fits, wide) at h))
    | inr (deadline, fits2) ↦
        (s.attestation_uid ++ (nonce ++ deadline), sym (some_inj.0 (rw (fits, fits2) at h)))
  ]
]

-- Under two different domain tags of one length, the message of a delegated attestation is never
-- that of a delegated revocation, so that no signature serves for both.
tags_keep_apart :
    (r : AttestationRequest) (s : RevocationRequest) (attest_dst revoke_dst : List ℕ)
    → IsWellFormed r
    → length attest_dst ≡ length revoke_dst
    → attest_dst ≢ revoke_dst
    → attest_bytes r attest_dst ≢ revoke_bytes s revoke_dst
tags_keep_apart r s attest_dst revoke_dst w same differ e =
    let (body, m) =
      revoke_bytes-tagged s revoke_dst (layout r attest_dst)
        (sym e ∙ attest_bytes-layout r attest_dst w) in
    differ (append-injective attest_dst revoke_dst same m).0
