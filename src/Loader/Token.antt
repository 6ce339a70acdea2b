-- ===== src/Loader/Token.antt =====
-- A file of src/loader.c as a list of words and numbers, which shows that its conversions can be as assumed.
use btlos.Prelude.{ℕ, ◌^◌, ◌≡◌, ◌≢◌, ◌<◌, refl, Option, none, some, List, [], ◌∷◌}
use btlos.Cpu.{Opcode, other}
use btlos.Loader.{Word}
use btlos.Loader.Print.{opcode_name}

pub data Token : Type 0 where
  num : ℕ → Token
  word : Word → Token

unfoldable pub scan_u : List Token → Option ℕ × List Token
scan_u [] = (none, [])
scan_u (num n ∷ file) = (some n, file)
scan_u (word w ∷ file) = (none, word w ∷ file)

-- A number is a word too, but none that the source knows.
unfoldable pub scan_s : List Token → Option Word × List Token
scan_s [] = (none, [])
scan_s (num n ∷ file) = (some [], file)
scan_s (word w ∷ file) = (some w, file)

abbrev pub print_u : ℕ → List Token → List Token
print_u n file = num n ∷ file

abbrev pub print_s : Word → List Token → List Token
print_s w file = word w ∷ file

pub number_law :
    (n : ℕ) → n < 2 ^ 32 → (file : List Token) → scan_u (print_u n file) ≡ (some n, file)
unfolding scan_u
number_law n h file = refl

pub word_law :
    (op : Opcode)
    → op ≢ other
    → (file : List Token) → scan_s (print_s (opcode_name op) file) ≡ (some (opcode_name op), file)
unfolding scan_s
word_law op h file = refl
