-- ===== src/Prelude/Words.antt =====
-- Go's strings.Split, Fields, Join, HasPrefix, Contains and ToUpper, strconv.Atoi and Itoa, and
-- the length of a text in bytes.
use Prim.Native.Nat.{ℕ, zero, suc, ◌+◌, ◌-◌, ◌*◌, ◌/◌, ◌%◌}
use Prim.Native.Char.{Char, code}
use Prim.Native.String.{String, [], ◌∷◌, ◌++◌ as str_append}
use mathlib.Core.Bool.{Bool, true, false, ◌&&◌, ◌||◌}
use mathlib.Core.List.{List}
use mathlib.Core.Option.{Option, none, some}
use seagull_agent.Prelude.Tests.{leb, ltb, ◌==◌, if◌then◌else◌}
use seagull_agent.Prelude.Int.{ℤ, pos, negsuc}
use seagull_agent.Prelude.Text.{is_space}

-- The bytes of a character in UTF-8.
unfoldable pub rune_bytes : Char → ℕ
rune_bytes c =
    let n = code c in
    if ltb n 0x80 then 1 else if ltb n 0x800 then 2 else if ltb n 0x10000 then 3 else 4

-- len(s)
unfoldable pub byte_length : String → ℕ
unfolding rune_bytes
byte_length [] = 0
byte_length (◌∷◌ c s) = rune_bytes c + byte_length s

-- s[:n], for a text of ASCII characters.
unfoldable pub take_bytes : ℕ → String → String
take_bytes zero s = []
take_bytes (suc n) [] = []
take_bytes (suc n) (◌∷◌ c s) = ◌∷◌ c (take_bytes n s)

-- strings.HasPrefix
unfoldable pub has_prefix : String → String → Bool
has_prefix [] s = true
has_prefix (◌∷◌ c p) [] = false
has_prefix (◌∷◌ c p) (◌∷◌ d s) = code c == code d && has_prefix p s

-- strings.Contains
unfoldable pub contains : String → String → Bool
contains p [] = has_prefix p []
contains p (◌∷◌ c s) = has_prefix p (◌∷◌ c s) || contains p s

-- One character of a text whose other pieces are split already.
pub extend : Char → List String → List String
extend c List.[] = List.◌∷◌ (◌∷◌ c []) List.[]
extend c (List.◌∷◌ w l) = List.◌∷◌ (◌∷◌ c w) l

-- strings.Split, at one ASCII character.
unfoldable pub split_on : ℕ → String → List String
unfolding extend
split_on k [] = List.◌∷◌ [] List.[]
split_on k (◌∷◌ c s) =
    let rest = split_on k s in if code c == k then List.◌∷◌ [] rest else extend c rest

-- The word of the characters before white space, and the words after it.
pub fields_from : String → List String
unfolding extend is_space
fields_from [] = List.◌∷◌ [] List.[]
fields_from (◌∷◌ c s) =
    let rest = fields_from s in if is_space (code c) then List.◌∷◌ [] rest else extend c rest

pub not_empty : List String → List String
not_empty List.[] = List.[]
not_empty (List.◌∷◌ [] l) = not_empty l
not_empty (List.◌∷◌ (◌∷◌ c w) l) = List.◌∷◌ (◌∷◌ c w) (not_empty l)

-- strings.Fields
unfoldable pub fields : String → List String
unfolding fields_from not_empty
fields s = not_empty (fields_from s)

-- strings.Join
unfoldable pub join : String → List String → String
join sep List.[] = []
join sep (List.◌∷◌ w List.[]) = w
join sep (List.◌∷◌ w (List.◌∷◌ v l)) = str_append w (str_append sep (join sep (List.◌∷◌ v l)))

abbrev capitals : String
capitals = "ABCDEFGHIJKLMNOPQRSTUVWXYZ"

pub nth_char : Char → ℕ → String → Char
nth_char c n [] = c
nth_char c n (◌∷◌ d s) = if n == 0 then d else nth_char c (n - 1) s

-- unicode.ToUpper, where the result is ASCII: U+0131 and U+017F are the only other code points
-- whose upper case is ASCII.
pub upper_char : Char → Char
unfolding nth_char
upper_char c =
    let n = code c in
    if leb 97 n && leb n 122
    then nth_char c (n - 97) capitals
    else if n == 0x131
    then nth_char c 8 capitals
    else if n == 0x17f
    then nth_char c 18 capitals
    else c

-- strings.ToUpper
unfoldable pub to_upper : String → String
unfolding upper_char
to_upper [] = []
to_upper (◌∷◌ c s) = ◌∷◌ (upper_char c) (to_upper s)

abbrev is_digit : ℕ → Bool
is_digit c = leb 48 c && leb c 57

pub digits_value : ℕ → String → Option ℕ
digits_value n [] = some n
digits_value n (◌∷◌ c s) =
    let rest = digits_value (10 * n + (code c - 48)) s in if is_digit (code c) then rest else none

pub signed : Bool → Option ℕ → Option ℤ
signed minus none = none
signed false (some n) = if ltb n 0x8000000000000000 then some (pos n) else none
signed true (some zero) = some (pos 0)
signed true (some (suc n)) = if ltb n 0x8000000000000000 then some (negsuc n) else none

pub unsigned_digits : String → Option ℕ
unfolding digits_value
unsigned_digits [] = none
unsigned_digits (◌∷◌ c s) = digits_value 0 (◌∷◌ c s)

-- strconv.Atoi on 64 bits.
unfoldable pub atoi : String → Option ℤ
unfolding signed unsigned_digits
atoi [] = none
atoi (◌∷◌ c s) =
    if code c == 45
    then signed true (unsigned_digits s)
    else if code c == 43
    then signed false (unsigned_digits s)
    else signed false (unsigned_digits (◌∷◌ c s))

pub digit : ℕ → String
digit zero = "0"
digit (suc zero) = "1"
digit (suc (suc zero)) = "2"
digit (suc (suc (suc zero))) = "3"
digit (suc (suc (suc (suc zero)))) = "4"
digit (suc (suc (suc (suc (suc zero))))) = "5"
digit (suc (suc (suc (suc (suc (suc zero)))))) = "6"
digit (suc (suc (suc (suc (suc (suc (suc zero))))))) = "7"
digit (suc (suc (suc (suc (suc (suc (suc (suc zero)))))))) = "8"
digit (suc (suc (suc (suc (suc (suc (suc (suc (suc n))))))))) = "9"

pub decimal : ℕ → ℕ → String
unfolding digit
decimal zero n = ""
decimal (suc fuel) n =
    let before = decimal fuel (n / 10) in
    if ltb n 10 then digit n else str_append before (digit (n % 10))

-- strconv.Itoa for an `int` that is not negative: 20 digits are enough for 64 bits.
unfoldable pub itoa : ℕ → String
unfolding decimal
itoa n = decimal 20 n
