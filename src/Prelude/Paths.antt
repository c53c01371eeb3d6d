-- ===== src/Prelude/Paths.antt =====
-- Go's path/filepath on Unix: IsAbs, Clean and Base.
use Prim.Native.Char.{Char, code}
use Prim.Native.String.{String, [], ◌∷◌, ◌++◌ as str_append}
use mathlib.Core.Bool.{Bool, false, ◌||◌, ◌&&◌, not}
use mathlib.Core.List.{List}
use text.Mathlib.Text.{◌==◌ as str_eq}
use seagull_agent.Prelude.Tests.{◌==◌, if◌then◌else◌}
use seagull_agent.Prelude.Words.{split_on, join}

-- filepath.IsAbs
unfoldable pub is_abs : String → Bool
is_abs [] = false
is_abs (◌∷◌ c s) = code c == 47

-- The parent of the elements, given from the last to the first: an absolute path stays at the root,
-- and a relative one goes further up.
unfoldable pub parent : Bool → List String → List String
parent rooted List.[] = if rooted then List.[] else List.◌∷◌ ".." List.[]
parent rooted (List.◌∷◌ w l) =
    if not rooted && str_eq w ".." then List.◌∷◌ ".." (List.◌∷◌ w l) else l

-- The elements of a path, from the last to the first, with `.`, `..` and empty ones worked off.
unfoldable pub clean_elements : Bool → List String → List String → List String
unfolding parent
clean_elements rooted done List.[] = done
clean_elements rooted done (List.◌∷◌ w l) =
    clean_elements rooted
      (if str_eq w "" || str_eq w "."
        then done
        else if str_eq w ".."
        then parent rooted done
        else List.◌∷◌ w done)
      l

unfoldable pub reverse_onto : List String → List String → List String
reverse_onto List.[] out = out
reverse_onto (List.◌∷◌ w l) out = reverse_onto l (List.◌∷◌ w out)

unfoldable pub elements : String → List String
elements s = reverse_onto (clean_elements (is_abs s) List.[] (split_on 47 s)) List.[]

-- filepath.Clean
unfoldable pub clean : String → String
unfolding is_abs elements clean_elements reverse_onto split_on join
clean s =
    if is_abs s
    then str_append "/" (join "/" (elements s))
    else elim (elements s) [ List.[] ↦ "." | List.◌∷◌ w l ↦ join "/" (List.◌∷◌ w l) ]

pub keep_before_slash : Char → String → String
keep_before_slash c [] = if code c == 47 then [] else ◌∷◌ c []
keep_before_slash c (◌∷◌ d s) = ◌∷◌ c (◌∷◌ d s)

pub trim_slashes : String → String
unfolding keep_before_slash
trim_slashes [] = []
trim_slashes (◌∷◌ c s) = keep_before_slash c (trim_slashes s)

pub last_element : String → List String → String
last_element w List.[] = w
last_element w (List.◌∷◌ v l) = last_element v l

-- filepath.Base
unfoldable pub base : String → String
unfolding trim_slashes last_element split_on
base [] = "."
base (◌∷◌ c s) =
    let name = last_element "" (split_on 47 (trim_slashes (◌∷◌ c s))) in
    if str_eq name "" then "/" else name
