-- ===== src/Listing/Order.antt =====
-- The order of the rows that a query of apps/horizon/src/repository/attestations.repository.ts sees:
-- `orderBy: { createdAt: 'desc' }`.
use mathlib.Core.Option.{some_inj}
use attest_so.Prelude.{
  ℕ, ◌<◌, ◌≡◌, refl, sym, ◌∙◌, inl, inr, List, [], ◌∷◌, Option, some, All, Has, arith,
}
use attest_so.Registry.Store.{Attestation}

abbrev created_at_of : Attestation → Option ℕ
created_at_of r = r.origin.created_at

-- The second one was created before the first.
abbrev IsOlder : Attestation → Attestation → Type 0
IsOlder x y = (s t : ℕ) × (created_at_of x ≡ some s) × (created_at_of y ≡ some t) × (t < s)

-- Every row has a time, no two the same, and they stand from the newest to the oldest.
abbrev pub IsNewestFirst : List Attestation → Type 0
IsNewestFirst [] = Unit
IsNewestFirst (x ∷ xs) = All (IsOlder x) xs × IsNewestFirst xs

abbrev pub AreAmong : List Attestation → List Attestation → Type 0
AreAmong xs ys = All (λ x. Has (λ y. y ≡ x) ys) xs

-- The two lists have the same rows.
abbrev pub HaveSameRows : List Attestation → List Attestation → Type 0
HaveSameRows xs ys = AreAmong xs ys × AreAmong ys xs

IsOlder-asym : (x y : Attestation) → IsOlder x y → IsOlder y x → ⊥
IsOlder-asym x y (s, t, a, b, c) (u, v, d, e, f) =
    omega (arith, some_inj.0 (sym a ∙ e), some_inj.0 (sym b ∙ d))

All-has :
    (P : Attestation → Type 0) (x : Attestation) (ys : List Attestation)
    → All P ys
    → Has (λ y. y ≡ x) ys
    → P x
All-has P x [] h m = absurd m
All-has P x (y ∷ ys) (p, h) (inl e) = rw (← e) p
All-has P x (y ∷ ys) (p, h) (inr m) = All-has P x ys h m

-- The head is not among the rest.
behind_head :
    (x y : Attestation) (ys zs : List Attestation)
    → x ≡ y
    → All (IsOlder x) zs
    → AreAmong zs (y ∷ ys)
    → AreAmong zs ys
behind_head x y ys [] same older among = tt
behind_head x y ys (z ∷ zs) same (o, older) (inl e, among) =
    let o' : IsOlder z z = rw (same ∙ e) at o in absurd (IsOlder-asym z z o' o')
behind_head x y ys (z ∷ zs) same (o, older) (inr m, among) =
    (m, behind_head x y ys zs same older among)

heads :
    (x y : Attestation) (xs ys : List Attestation)
    → All (IsOlder x) xs
    → All (IsOlder y) ys
    → Has (λ z. z ≡ x) (y ∷ ys)
    → Has (λ z. z ≡ y) (x ∷ xs)
    → x ≡ y
heads x y xs ys older older' (inl e) m = sym e
heads x y xs ys older older' (inr m) (inl e) = e
heads x y xs ys older older' (inr m) (inr n) =
    absurd (IsOlder-asym x y (All-has (IsOlder x) y xs older n) (All-has (IsOlder y) x ys older' m))

-- The order is settled by the rows.
pub newest_first_unique :
    (xs ys : List Attestation) → IsNewestFirst xs → IsNewestFirst ys → HaveSameRows xs ys → xs ≡ ys
newest_first_unique [] [] o p h = refl
newest_first_unique [] (y ∷ ys) o p (h, (m, k)) = absurd m
newest_first_unique (x ∷ xs) [] o p ((m, h), k) = absurd m
newest_first_unique (x ∷ xs) (y ∷ ys) (older, o) (older', p) ((m, h), (n, k)) =
    let same = heads x y xs ys older older' m n in
    let rest =
      newest_first_unique xs ys o p
        (behind_head x y ys xs same older h, behind_head y x xs ys (sym same) older' k) in
    rw (same, rest) refl
