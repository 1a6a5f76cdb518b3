-- ===== src/Prelude/Text.antt =====
-- `toLowerCase` on the letters A to Z, the only ones that occur in the identifiers and hexadecimal
-- addresses that the programs compare; every other character is kept.
use Prim.Native.Char.{Char, char, code, nul, IsScalar}
use Prim.Native.String.{String}
use Prim.Native.Nat.{ℕ, ◌+◌, ◌-◌, ◌<◌}
use mathlib.Core.Bool.{◌&&◌}
use mathlib.Core.Path.{◌≡◌, refl, ap₂}
use mathlib.Core.Logic.{dite}
use native.Mathlib.Omega.{arith}
use native.Mathlib.Decide.{dec_lt}
use smartcupleague.Prelude.Tests.{leb, if◌then◌else◌}

pub IsScalar-ascii : (n : ℕ) → n < 128 → IsScalar n
IsScalar-ascii n h = ground arith

unfoldable pub ascii : ℕ → Char
unfolding dec_lt
ascii n = dite (dec_lt n 128) (λ h. char n (IsScalar-ascii n h)) (λ _. nul)

unfoldable pub lower_char : Char → Char
unfolding ascii
lower_char c = if leb b'A' (code c) && leb (code c) b'Z' then ascii (code c + 32) else c

unfoldable pub to_lower_case : String → String
unfolding lower_char
to_lower_case String.[] = String.[]
to_lower_case (String.◌∷◌ c s) = String.◌∷◌ (lower_char c) (to_lower_case s)

-- `toUpperCase` on the letters a to z.
unfoldable pub upper_char : Char → Char
unfolding ascii
upper_char c = if leb b'a' (code c) && leb (code c) b'z' then ascii (code c - 32) else c

unfoldable pub to_upper_case : String → String
unfolding upper_char
to_upper_case String.[] = String.[]
to_upper_case (String.◌∷◌ c s) = String.◌∷◌ (upper_char c) (to_upper_case s)

lower_mixed : to_lower_case "Home 0xAbC" ≡ "home 0xabc"
unfolding to_lower_case
lower_mixed = refl

lower_char_idem : (c : Char) → lower_char (lower_char c) ≡ lower_char c
unfolding lower_char ascii
lower_char_idem c = ground arith

pub to_lower_case_idem : (s : String) → to_lower_case (to_lower_case s) ≡ to_lower_case s
unfolding to_lower_case
to_lower_case_idem String.[] = refl
to_lower_case_idem (String.◌∷◌ c s) = ap₂ String.◌∷◌ (lower_char_idem c) (to_lower_case_idem s)
