-- ===== src/Storage/Upserts.antt =====
-- Upserts one after another.
use Prim.Native.String.{String}
use attest_so.Prelude.{
  Has, ◌≡◌, ◌∙◌, refl, ap, inl, inr, List, [], ◌∷◌, Option, none, some, ◌is◌, if◌then◌else◌,
  Bool-cases,
}
use attest_so.Storage.{Table, find-upserted}

pub record Upsert (Row : Type 0) : Type 0 where
  pub key : String
  pub update : Row → Row
  pub create : Row

module _ {Row : Type 0} where
  -- The row of a key after an upsert of it.
  abbrev pub merged : Upsert Row → Option Row → Row
  merged u o = elim o [ none ↦ u.create | some r ↦ u.update r ]

  abbrev pub row_after : String → Option Row → List (Upsert Row) → Option Row
  row_after key o [] = o
  row_after key o (u ∷ us) = row_after key (if u.key is key then some (merged u o) else o) us

  -- What the updates keep, the row keeps.
  pub row_after-keeps :
      (P : Row → Type 0) (key : String) (r : Row) (us : List (Upsert Row))
      → ((u : Upsert Row) → Has (λ v. v ≡ u) us → (r : Row) → P r → P (u.update r))
      → P r
      → (r' : Row) × (row_after key (some r) us ≡ some r') × P r'
  row_after-keeps P key r [] keeps h = (r, refl, h)
  row_after-keeps P key r (u ∷ us) keeps h = elim (Bool-cases (u.key is key)) [
    | inr other ↦ rw other (row_after-keeps P key r us (λ v m r k. keeps v (inr m) r k) h)
    | inl same ↦ rw same (
        row_after-keeps P key (u.update r) us (λ v m r k. keeps v (inr m) r k)
          (keeps u (inl refl) r h))
  ]

  module _ (table : Table Row) where
    unfoldable pub upserts : List (Upsert Row) → table.State → table.State
    upserts [] s = s
    upserts (u ∷ us) s = upserts us (table.upsert u.key u.update u.create s)

    pub find-upserts :
        (key : String) (us : List (Upsert Row)) (s : table.State)
        → table.find key (upserts us s) ≡ row_after key (table.find key s) us
    unfolding upserts
    find-upserts key [] s = refl
    find-upserts key (u ∷ us) s =
        find-upserts key us (table.upsert u.key u.update u.create s)
        ∙ ap (λ o. row_after key o us) (find-upserted table key u.key u.update u.create s)
