-- ===== src/Uid/Format.antt =====
-- packages/stellar-sdk/src/utils/uidGenerator.ts: `formatUid` of a text, and `parseFormattedUid`. A text
-- is the list of its UTF-16 code units; 45 is the dash. `from_hex` is `Buffer.from(text, 'hex')`.
use attest_so.Prelude.{
  ℕ, zero, suc, ◌+◌, ◌≡◌, refl, ap, inl, inr, Bool, true, not, List, [], ◌∷◌, ◌++◌, length, take,
  drop, filter, take-append-drop, drop-drop, ◌==◌, if◌then◌else◌, All, Bool-cases,
}

-- `slice(from, to)`, for `from` no larger than `to`.
abbrev pub slice : ℕ → ℕ → List ℕ → List ℕ
slice from width us = take width (drop from us)

unfoldable pub format_uid : List ℕ → List ℕ
format_uid hex =
    if not (length hex == 64)
    then hex
    else slice 0 8 hex
      ++ 45 ∷ (slice 8 8 hex ++ 45 ∷ (slice 16 8 hex ++ 45 ∷ (slice 24 8 hex ++ 45 ∷ drop 32 hex)))

abbrev is_no_dash : ℕ → Bool
is_no_dash u = not (u == 45)

unfoldable parse_formatted_uid : (List ℕ → List ℕ) → List ℕ → List ℕ
parse_formatted_uid from_hex formatted = from_hex (filter is_no_dash formatted)

abbrev HasNoDash : List ℕ → Type 0
HasNoDash us = All (λ u. is_no_dash u ≡ true) us

filter-HasNoDash : (us : List ℕ) → HasNoDash us → filter is_no_dash us ≡ us
filter-HasNoDash [] h = refl
filter-HasNoDash (u ∷ us) (n, h) = rw n (ap (λ r. u ∷ r) (filter-HasNoDash us h))

-- A dash between two texts is filtered out.
filter-dashed :
    (us vs : List ℕ) → HasNoDash us → filter is_no_dash (us ++ 45 ∷ vs) ≡ us ++ filter is_no_dash vs
filter-dashed [] vs h = refl
filter-dashed (u ∷ us) vs (n, h) = rw n (ap (λ r. u ∷ r) (filter-dashed us vs h))

HasNoDash-take : (n : ℕ) (us : List ℕ) → HasNoDash us → HasNoDash (take n us)
HasNoDash-take zero us h = tt
HasNoDash-take (suc n) [] h = tt
HasNoDash-take (suc n) (u ∷ us) (p, h) = (p, HasNoDash-take n us h)

HasNoDash-drop : (n : ℕ) (us : List ℕ) → HasNoDash us → HasNoDash (drop n us)
HasNoDash-drop zero us h = h
HasNoDash-drop (suc n) [] h = tt
HasNoDash-drop (suc n) (u ∷ us) (p, h) = HasNoDash-drop n us h

-- A group, and what follows it.
group : (n : ℕ) (us : List ℕ) → slice n 8 us ++ drop (n + 8) us ≡ drop n us
group n us = rw (← drop-drop n 8 us) (take-append-drop 8 (drop n us))

undashed :
    (hex : List ℕ)
    → HasNoDash hex
    → filter is_no_dash (
        slice 0 8 hex
        ++ 45
          ∷ (slice 8 8 hex ++ 45 ∷ (slice 16 8 hex ++ 45 ∷ (slice 24 8 hex ++ 45 ∷ drop 32 hex))))
      ≡ hex
undashed hex h =
    rw
      (
        filter-dashed (slice 0 8 hex) _ (piece 0),
        filter-dashed (slice 8 8 hex) _ (piece 8),
        filter-dashed (slice 16 8 hex) _ (piece 16),
        filter-dashed (slice 24 8 hex) _ (piece 24),
        filter-HasNoDash (drop 32 hex) (HasNoDash-drop 32 hex h),
        group 24 hex,
        group 16 hex,
        group 8 hex,
      )
      (take-append-drop 8 hex)
  where
    piece : (n : ℕ) → HasNoDash (slice n 8 hex)
    piece n = HasNoDash-take 8 (drop n hex) (HasNoDash-drop n hex h)

-- The text of a uid in which there is no dash is parsed back from its format to what it is the
-- hexadecimal form of, whatever its length is.
parse_formatted_uid-format_uid :
    (from_hex : List ℕ → List ℕ) (hex : List ℕ)
    → HasNoDash hex
    → parse_formatted_uid from_hex (format_uid hex) ≡ from_hex hex
unfolding parse_formatted_uid format_uid
parse_formatted_uid-format_uid from_hex hex h = elim (Bool-cases (length hex == 64)) [
  | inr other ↦ rw other (ap from_hex (filter-HasNoDash hex h))
  | inl long ↦ rw long (ap from_hex (undashed hex h))
]
