-- ===== src/Cli/Text.antt =====
-- Texts as lists of bytes, with the operations of std::string that the command line uses.
use Prim.Native.String.{String}
use Prim.Native.Char.{code}
use lona_mvm.Prelude.{
  ℕ, zero, suc, Bool, true, false, ◌&&◌, List, [], ◌∷◌, if◌then◌else◌, leb, ◌==◌,
}

abbrev pub Bytes : Type 0
Bytes = List ℕ

-- The bytes of an ASCII text.
abbrev pub text : String → Bytes
text String.[] = []
text (String.◌∷◌ c s) = code c ∷ text s

abbrev pub is_same : Bytes → Bytes → Bool
is_same [] [] = true
is_same (a ∷ as1) (b ∷ bs) = (a == b) && is_same as1 bs
is_same _ _ = false

abbrev pub has_prefix : Bytes → Bytes → Bool
has_prefix bytes [] = true
has_prefix [] (b ∷ bs) = false
has_prefix (a ∷ as1) (b ∷ bs) = (a == b) && has_prefix as1 bs

abbrev pub drop : ℕ → Bytes → Bytes
drop zero bytes = bytes
drop (suc n) [] = []
drop (suc n) (b ∷ bs) = drop n bs

-- isdigit, in the C locale
abbrev pub is_digit : ℕ → Bool
is_digit b = leb 48 b && leb b 57

-- value.substr(0, numericLength) and value.substr(numericLength)
abbrev pub take_digits : Bytes → Bytes
take_digits [] = []
take_digits (b ∷ bs) = if is_digit b then b ∷ take_digits bs else []

abbrev pub drop_digits : Bytes → Bytes
drop_digits [] = []
drop_digits (b ∷ bs) = if is_digit b then drop_digits bs else b ∷ bs
