-- ===== src/Common/Text.antt =====
-- Python's operations on texts that the program uses: `s[:n]`, `s.rstrip(c)`, `" ".join`.
use Prim.Native.Nat.{ℕ, zero, suc}
use Prim.Native.Char.{Char, code}
use Prim.Native.String.{String, ◌++◌ as concat}
use mathlib.Core.List.{List, [], ◌∷◌}
use daily_firehose.Common.Tests.{◌==◌, if◌then◌else◌}

infixr 66 ◌+++◌
-- `s + t`
abbrev pub ◌+++◌ : String → String → String
s +++ t = concat s t

-- `s[:n]`
unfoldable pub prefix : ℕ → String → String
prefix zero s = ""
prefix (suc n) String.[] = ""
prefix (suc n) (String.◌∷◌ c s) = String.◌∷◌ c (prefix n s)

strip_last : ℕ → Char → String → String
strip_last c d String.[] = if code d == c then "" else String.◌∷◌ d ""
strip_last c d (String.◌∷◌ e s) = String.◌∷◌ d (String.◌∷◌ e s)

-- `s.rstrip(c)` for one character, by its code point
unfoldable pub rstrip : ℕ → String → String
unfolding strip_last
rstrip c String.[] = ""
rstrip c (String.◌∷◌ d s) = strip_last c d (rstrip c s)

-- `" ".join(parts)`
unfoldable pub join_words : List String → String
join_words [] = ""
join_words (s ∷ []) = s
join_words (s ∷ t ∷ rest) = s +++ " " +++ join_words (t ∷ rest)

-- `len(s)`
unfoldable pub text_length : String → ℕ
text_length String.[] = 0
text_length (String.◌∷◌ c s) = suc (text_length s)
