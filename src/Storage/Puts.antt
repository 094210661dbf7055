-- ===== src/Storage/Puts.antt =====
-- Rows written one after another, whatever was there.
use Prim.Native.String.{String}
use attest_so.Prelude.{
  ◌≡◌, ◌∙◌, refl, sym, ap, ◌⊎◌, inl, inr, List, [], ◌∷◌, ◌++◌, Option, some, ◌is◌, if◌then◌else◌,
  Bool-cases,
}
use attest_so.Storage.{Table, put, find-put}

module _ {Row : Type 0} where
  -- The row of a key after writes.
  abbrev pub last_of : String → Option Row → List (String × Row) → Option Row
  last_of key o [] = o
  last_of key o ((k, r) ∷ writes) = last_of key (if k is key then some r else o) writes

  -- Writes settle the row of a key, or leave it as it was.
  last_of_cases :
      (key : String) (writes : List (String × Row))
      → ((o p : Option Row) → last_of key o writes ≡ last_of key p writes)
        ⊎ ((o : Option Row) → last_of key o writes ≡ o)
  last_of_cases key [] = inr (λ o. refl)
  last_of_cases key ((k, r) ∷ writes) = elim (Bool-cases (k is key)) [
    | inl same ↦ inl (λ o p. rw same refl)
    | inr other ↦ elim (last_of_cases key writes) [
      | inl settled ↦ inl (λ o p. rw other (settled o p))
      | inr kept ↦ inr (λ o. rw other (kept o))
    ]
  ]

  last_of-again :
      (key : String) (o : Option Row) (writes : List (String × Row))
      → last_of key (last_of key o writes) writes ≡ last_of key o writes
  last_of-again key o writes = elim (last_of_cases key writes) [
    | inl settled ↦ settled (last_of key o writes) o
    | inr kept ↦ kept (last_of key o writes)
  ]

  module _ (table : Table Row) where
    unfoldable pub puts : List (String × Row) → table.State → table.State
    puts [] s = s
    puts ((k, r) ∷ writes) s = puts writes (put table k r s)

    puts-append :
        (v w : List (String × Row)) (s : table.State) → puts (v ++ w) s ≡ puts w (puts v s)
    unfolding puts
    puts-append [] w s = refl
    puts-append ((k, r) ∷ v) w s = puts-append v w (put table k r s)

    pub find-puts :
        (key : String) (writes : List (String × Row)) (s : table.State)
        → table.find key (puts writes s) ≡ last_of key (table.find key s) writes
    unfolding puts
    find-puts key [] s = refl
    find-puts key ((k, r) ∷ writes) s =
        find-puts key writes (put table k r s)
        ∙ ap (λ o. last_of key o writes) (find-put table key k r s)

    -- Written once more, the rows are what they were.
    pub find-puts_again :
        (key : String) (writes : List (String × Row)) (s : table.State)
        → table.find key (puts writes (puts writes s)) ≡ table.find key (puts writes s)
    find-puts_again key writes s =
        find-puts key writes (puts writes s)
        ∙ ap (λ o. last_of key o writes) (find-puts key writes s)
        ∙ last_of-again key (table.find key s) writes
        ∙ sym (find-puts key writes s)
