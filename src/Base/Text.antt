-- ===== src/Base/Text.antt =====
-- Texts by their characters: what the code reads of a string byte by byte is ASCII.
use Prim.Native.Nat.{ℕ, ◌+◌, compare, Ordering}
use Prim.Native.Char.{Char, code}
use Prim.Native.String.{String, ◌++◌}
use mathlib.Core.Path.{◌≡◌}
use mathlib.Core.Bool.{Bool, true, false, ◌&&◌, ◌||◌}
use native.Mathlib.Omega.{arith}
use text.Mathlib.TextLemmas.{nil-append, cons-append}
use sydom.Base.Equality.{leb, string_eq, if◌then◌else◌}

-- Two characters by their codes.
abbrev same : ℕ → ℕ → Bool
same a b = elim (compare a b) [ Ordering.eq ↦ true | _ ↦ false ]

-- How often the character with code `c` stands in the text.
abbrev pub count : ℕ → String → ℕ
count c String.[] = 0
count c (String.◌∷◌ d s) = (if same (code d) c then 1 else 0) + count c s

pub count-append : (c : ℕ) (s t : String) → count c (s ++ t) ≡ count c s + count c t
count-append c String.[] t = rw nil-append (omega arith)
count-append c (String.◌∷◌ d s) t = rw cons-append (omega (arith, count-append c s t))

abbrev in_range : ℕ → ℕ → ℕ → Bool
in_range lo hi c = leb lo c && leb c hi

-- `[A-Za-z_]`
abbrev pub is_word_start : ℕ → Bool
is_word_start c = in_range b'A' b'Z' c || in_range b'a' b'z' c || same c b'_'

-- `[A-Za-z0-9_]`
abbrev pub is_word : ℕ → Bool
is_word c = is_word_start c || in_range b'0' b'9' c

abbrev pub all_words : String → Bool
all_words String.[] = true
all_words (String.◌∷◌ c s) = is_word (code c) && all_words s

-- unicode.IsSpace
abbrev pub is_space : ℕ → Bool
is_space c =
    in_range 9 13 c
    || same c 32
    || same c 0x85
    || same c 0xa0
    || same c 0x1680
    || in_range 0x2000 0x200a c
    || same c 0x2028
    || same c 0x2029
    || same c 0x202f
    || same c 0x205f
    || same c 0x3000

unfoldable pub trim_left : String → String
trim_left String.[] = String.[]
trim_left (String.◌∷◌ c s) =
    let rest = trim_left s in if is_space (code c) then rest else String.◌∷◌ c s

-- A white space before `s`, where nothing is left of `s`, goes as well.
drop_last_space : Char → String → String
drop_last_space c String.[] = if is_space (code c) then String.[] else String.◌∷◌ c String.[]
drop_last_space c (String.◌∷◌ d s) = String.◌∷◌ c (String.◌∷◌ d s)

unfoldable pub trim_right : String → String
unfolding drop_last_space
trim_right String.[] = String.[]
trim_right (String.◌∷◌ c s) = drop_last_space c (trim_right s)

-- strings.TrimSpace and bytes.TrimSpace
unfoldable pub trim : String → String
unfolding trim_left trim_right
trim s = trim_right (trim_left s)

-- strings.ContainsRune
unfoldable pub contains_rune : String → ℕ → Bool
contains_rune String.[] c = false
contains_rune (String.◌∷◌ d s) c = same (code d) c || contains_rune s c
