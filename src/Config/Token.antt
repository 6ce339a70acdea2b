-- ===== src/Config/Token.antt =====
-- A file of src/os.c as a list of integers, numbers and words, which shows that its conversions can be as assumed.
use btlos.Prelude.{ℕ, ◌^◌, ◌≡◌, ◌<◌, refl, Option, none, some, List, ◌∷◌}
use btlos.Prelude.Int.{ℤ}
use btlos.Loader.{Word}
use btlos.Config.Print.{IsInt}

pub data Token : Type 0 where
  int : ℤ → Token
  num : ℕ → Token
  word : Word → Token

unfoldable pub scan_d : List Token → Option ℤ × List Token
scan_d (int n ∷ file) = (some n, file)
scan_d file = (none, file)

unfoldable pub scan_lu : List Token → Option ℕ × List Token
scan_lu (num n ∷ file) = (some n, file)
scan_lu file = (none, file)

unfoldable pub scan_s : List Token → Option Word × List Token
scan_s (word w ∷ file) = (some w, file)
scan_s file = (none, file)

abbrev pub print_d : ℤ → List Token → List Token
print_d n file = int n ∷ file

abbrev pub print_lu : ℕ → List Token → List Token
print_lu n file = num n ∷ file

abbrev pub print_s : Word → List Token → List Token
print_s w file = word w ∷ file

-- Every word is read back.
abbrev pub IsName : Word → Type 0
IsName w = Unit {0}

pub integer_law : (n : ℤ) → IsInt n → (file : List Token) → scan_d (print_d n file) ≡ (some n, file)
unfolding scan_d
integer_law n h file = refl

pub number_law :
    (n : ℕ) → n < 2 ^ 64 → (file : List Token) → scan_lu (print_lu n file) ≡ (some n, file)
unfolding scan_lu
number_law n h file = refl

pub word_law :
    (w : Word) → IsName w → (file : List Token) → scan_s (print_s w file) ≡ (some w, file)
unfolding scan_s
word_law w h file = refl
