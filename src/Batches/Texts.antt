-- ===== src/Batches/Texts.antt =====
-- What apps/horizon/src/repository/events.repository.ts uses of the language's texts.
use Prim.Native.String.{String, [], ◌∷◌}
use Prim.Native.Char.{Char, code}
use attest_so.Prelude.{ℕ, zero, suc, ◌-◌, Bool, false, ◌&&◌, ◌||◌, leb, ◌==◌, if◌then◌else◌}

-- The nth character of a text, or another.
nth_char : ℕ → String → Char → Char
nth_char n [] d = d
nth_char zero (c ∷ s) d = c
nth_char (suc n) (c ∷ s) d = nth_char n s d

-- `toUpperCase`, of the letters a to z.
unfoldable pub to_upper_case : String → String
unfolding nth_char
to_upper_case [] = []
to_upper_case (c ∷ s) =
    (if leb 97 (code c) && leb (code c) 122
      then nth_char (code c - 97) "ABCDEFGHIJKLMNOPQRSTUVWXYZ" c
      else c)
    ∷ to_upper_case s

-- `text.trim().startsWith('{')`
unfoldable pub starts_with_brace : String → Bool
starts_with_brace [] = false
starts_with_brace (c ∷ s) =
    let later = starts_with_brace s in
    if code c == 32 || (leb 9 (code c) && leb (code c) 13) then later else code c == 123
