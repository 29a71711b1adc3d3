-- ===== src/Prelude/Strings.antt =====
-- Text that the program walks through: its code points, and the bytes that UTF-8 encodes them by.
use Prim.Native.Nat.{ℕ, ◌+◌, ◌/◌, ◌%◌}
use Prim.Native.Char.{code}
use Prim.Native.String.{String}
use mathlib.Core.Path.{◌≡◌}
use mathlib.Core.Logic.{◌↔◌}
use mathlib.Core.Bool.{Bool, true, false, ◌&&◌}
use mathlib.Core.List.{List, [], ◌∷◌, ◌++◌}
use native.Mathlib.Omega.{arith}
use wordbit_advanced.Prelude.Tests.{ltb, nat_beq, if◌then◌else◌}
use wordbit_advanced.Prelude.Equality.{Comparable}

abbrev pub Text : Type 0
Text = List ℕ

abbrev pub codes : String → Text
codes String.[] = []
codes (String.◌∷◌ c s) = code c ∷ codes s

abbrev pub text_beq : Text → Text → Bool
text_beq [] [] = true
text_beq (a ∷ x) (b ∷ y) = nat_beq a b && text_beq x y
text_beq _ _ = false

pub text_beq_iff : (a b : Text) → (text_beq a b ≡ true) ↔ (a ≡ b)
text_beq_iff [] [] = ground arith
text_beq_iff [] (b ∷ y) = ground arith
text_beq_iff (a ∷ x) [] = ground arith
text_beq_iff (a ∷ x) (b ∷ y) = ground (arith, text_beq_iff x y)

instance abbrev pub text_eq : Comparable Text
text_eq = record { equals = text_beq; equals_iff = text_beq_iff }

-- The bytes of one code point.
abbrev pub encode : ℕ → List ℕ
encode c =
    if ltb c 0x80
    then c ∷ []
    else (if ltb c 0x800
        then (0xC0 + c / 64) ∷ (0x80 + c % 64) ∷ []
        else (if ltb c 0x10000
            then (0xE0 + c / 4096) ∷ (0x80 + c / 64 % 64) ∷ (0x80 + c % 64) ∷ []
            else (0xF0 + c / 262_144)
              ∷ (0x80 + c / 4096 % 64)
              ∷ (0x80 + c / 64 % 64)
              ∷ (0x80 + c % 64)
              ∷ []))

abbrev pub bytes : Text → List ℕ
bytes [] = []
bytes (c ∷ cs) = encode c ++ bytes cs
