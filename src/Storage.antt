-- ===== src/Storage.antt =====
-- The tables behind the database client of apps/horizon, keyed by a text. What the code relies on: an
-- `upsert` changes the row with the key where there is one, creates one where there is none, and
-- leaves the other rows alone.
use Prim.Native.String.{String}
use text.Mathlib.TextEquality.{eq_iff}
use attest_so.Prelude.{
  ◌≡◌, ◌∙◌, refl, subst, inl, inr, Bool, true, false, Option, none, some, ◌is◌, if◌then◌else◌,
  Bool-cases,
}
pub mod Rows
pub mod Puts
pub mod Upserts

pub record Table (Row : Type 0) : Type 1 where
  pub State : Type 0
  pub find : String → State → Option Row
  pub upsert : String → (Row → Row) → Row → State → State
  pub find-upsert :
      (key : String) (update : Row → Row) (create : Row) (s : State)
      → find key (upsert key update create s)
        ≡ some (elim (find key s) [ none ↦ create | some r ↦ update r ])
  pub find-upsert_other :
      (key other : String) (update : Row → Row) (create : Row) (s : State)
      → (other is key) ≡ false
      → find key (upsert other update create s) ≡ find key s

module _ {Row : Type 0} (table : Table Row) where
  -- The row of one key after an upsert of another or of the same.
  pub find-upserted :
      (key at : String) (update : Row → Row) (create : Row) (s : table.State)
      → table.find key (table.upsert at update create s) ≡ (
          if at is key
          then some (elim (table.find key s) [ none ↦ create | some r ↦ update r ])
          else table.find key s)
  find-upserted key at update create s = elim (Bool-cases (at is key)) [
    | inr other ↦ rw other (table.find-upsert_other key at update create s other)
    | inl same ↦ rw same (
        subst
          (λ k.
            table.find k (table.upsert at update create s)
            ≡ some (elim (table.find k s) [ none ↦ create | some r ↦ update r ]))
          ((eq_iff at key).0 same) (table.find-upsert at update create s))
  ]

  -- An upsert that writes one row whatever was there.
  abbrev pub put : String → Row → table.State → table.State
  put key r s = table.upsert key (λ old. r) r s

  either_way : (r : Row) (o : Option Row) → elim o [ none ↦ r | some old ↦ r ] ≡ r
  either_way r none = refl
  either_way r (some old) = refl

  pub find-put :
      (key at : String) (r : Row) (s : table.State)
      → table.find key (put at r s) ≡ (if at is key then some r else table.find key s)
  find-put key at r s =
      find-upserted key at (λ old. r) r s ∙ rw (either_way r (table.find key s)) refl
