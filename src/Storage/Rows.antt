-- ===== src/Storage/Rows.antt =====
-- A table as a list of rows.
use Prim.Native.String.{String}
use text.Mathlib.TextEquality.{eq_iff}
use attest_so.Prelude.{
  ◌≡◌, refl, inl, inr, true, false, List, [], ◌∷◌, Option, none, some, ◌is◌, if◌then◌else◌,
  Bool-cases,
}
use attest_so.Storage.{Table}

module _ {Row : Type 0} where
  abbrev pub find_row : String → List (String × Row) → Option Row
  find_row uid [] = none
  find_row uid ((k, r) ∷ rows) = let rest = find_row uid rows in if k is uid then some r else rest

  abbrev upsert_row : String → (Row → Row) → Row → List (String × Row) → List (String × Row)
  upsert_row uid update create [] = (uid, create) ∷ []
  upsert_row uid update create ((k, r) ∷ rows) =
      let rest = upsert_row uid update create rows in
      if k is uid then (k, update r) ∷ rows else (k, r) ∷ rest

  pub find_row-upsert_row :
      (uid : String) (update : Row → Row) (create : Row) (rows : List (String × Row))
      → find_row uid (upsert_row uid update create rows)
        ≡ some (elim (find_row uid rows) [ none ↦ create | some r ↦ update r ])
  find_row-upsert_row uid update create [] =
      let same : (uid is uid) ≡ true = (eq_iff uid uid).1 refl in rw same refl
  find_row-upsert_row uid update create ((k, r) ∷ rows) = elim (Bool-cases (k is uid)) [
    | inl same ↦ rw same (rw same refl)
    | inr other ↦ rw other (rw other (find_row-upsert_row uid update create rows))
  ]

  pub find_row-upsert_other :
      (uid key : String) (update : Row → Row) (create : Row) (rows : List (String × Row))
      → (key is uid) ≡ false
      → find_row uid (upsert_row key update create rows) ≡ find_row uid rows
  find_row-upsert_other uid key update create [] differ = rw differ refl
  find_row-upsert_other uid key update create ((k, r) ∷ rows) differ =
      elim (Bool-cases (k is key)) [
        | inl same ↦
            let apart : (k is uid) ≡ false = rw ((eq_iff k key).0 same) differ in
            rw same (rw apart refl)
        | inr other ↦ elim (Bool-cases (k is uid)) [
          | inl it ↦ rw other (rw it refl)
          | inr nope ↦ rw other (rw nope (find_row-upsert_other uid key update create rows differ))
        ]
      ]

abbrev pub rows_table : (Row : Type 0) → Table Row
rows_table Row = record {
  State = List (String × Row);
  find = find_row;
  upsert = upsert_row;
  find-upsert = find_row-upsert_row;
  find-upsert_other = find_row-upsert_other;
}
