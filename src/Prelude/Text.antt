-- ===== src/Prelude/Text.antt =====
-- Go's strings.TrimSpace and strings.ToLower, over the code points of a text.
pub mod Trim
use Prim.Native.Nat.{ℕ, ◌-◌}
use Prim.Native.Char.{Char, code}
use Prim.Native.String.{String, [], ◌∷◌}
use mathlib.Core.Bool.{Bool, true, false, ◌&&◌, ◌||◌}
use text.Mathlib.Text.{◌==◌ as str_eq}
use seagull_agent.Prelude.Tests.{leb, ◌==◌, if◌then◌else◌}

-- The white space of unicode.IsSpace.
unfoldable pub is_space : ℕ → Bool
is_space c =
    (leb 9 c && leb c 13)
    || c == 32
    || c == 0x85
    || c == 0xa0
    || c == 0x1680
    || (leb 0x2000 c && leb c 0x200a)
    || c == 0x2028
    || c == 0x2029
    || c == 0x202f
    || c == 0x205f
    || c == 0x3000

pub trim_left : String → String
trim_left [] = []
trim_left (◌∷◌ c s) = if is_space (code c) then trim_left s else ◌∷◌ c s

-- A character before a trimmed rest: white space stays only before something else.
pub keep_before : Char → String → String
keep_before c [] = if is_space (code c) then [] else ◌∷◌ c []
keep_before c (◌∷◌ d s) = ◌∷◌ c (◌∷◌ d s)

pub trim_right : String → String
trim_right [] = []
trim_right (◌∷◌ c s) = keep_before c (trim_right s)

unfoldable pub trim_space : String → String
unfolding is_space trim_left keep_before trim_right
trim_space s = trim_right (trim_left s)

unfoldable pub is_blank : String → Bool
is_blank s = elim (trim_space s) [ [] ↦ true | ◌∷◌ c r ↦ false ]

-- strings.HasSuffix
unfoldable pub has_suffix : String → String → Bool
has_suffix suffix [] = str_eq suffix []
has_suffix suffix (◌∷◌ c s) = str_eq suffix (◌∷◌ c s) || has_suffix suffix s

unfoldable pub contains_code : ℕ → String → Bool
contains_code k [] = false
contains_code k (◌∷◌ c s) = code c == k || contains_code k s

abbrev letters : String
letters = "abcdefghijklmnopqrstuvwxyz"

-- The n-th character of a text, or another one.
char_at_or : Char → ℕ → String → Char
char_at_or c n [] = c
char_at_or c n (◌∷◌ d s) = if n == 0 then d else char_at_or c (n - 1) s

-- unicode.ToLower, where the result is ASCII: the capital letters, and U+0130 and U+212A, the only
-- other code points whose lower case is ASCII. What maps to another character is left as it is, so
-- a comparison of a lowered text with an ASCII word has Go's answer.
lower_char : Char → Char
unfolding char_at_or
lower_char c =
    let n = code c in
    if leb 65 n && leb n 90
    then char_at_or c (n - 65) letters
    else if n == 0x130
    then char_at_or c 8 letters
    else if n == 0x212a
    then char_at_or c 10 letters
    else c

lower_all : String → String
unfolding lower_char
lower_all [] = []
lower_all (◌∷◌ c s) = ◌∷◌ (lower_char c) (lower_all s)

-- strings.ToLower
unfoldable pub to_lower : String → String
unfolding lower_all
to_lower s = lower_all s
