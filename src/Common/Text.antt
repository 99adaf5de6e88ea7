-- ===== src/Common/Text.antt =====
-- The methods of Python's `str` that the program uses.
use Prim.Native.Char.{code}
use Prim.Native.Nat.{ℕ, suc}
use Prim.Native.String.{String, ◌++◌ as str_append}
use text.Mathlib.Text.{◌==◌ as str_eq}
use mathlib.Core.List.{List, [], ◌∷◌}
use mathlib.Core.Bool.{Bool, true, false, ◌&&◌, ◌||◌}
use novaapi.Common.Tests.{leb, ◌==◌, if◌then◌else◌}

-- The code points that `str.isspace` accepts, which are those that `strip` removes.
abbrev is_space : ℕ → Bool
is_space c =
    (leb 9 c && leb c 13)
    || (leb 28 c && leb c 32)
    || c == 133
    || c == 160
    || c == 5760
    || (leb 8192 c && leb c 8202)
    || c == 8232
    || c == 8233
    || c == 8239
    || c == 8287
    || c == 12288

-- `not s.strip()`
unfoldable pub is_blank : String → Bool
is_blank String.[] = true
is_blank (String.◌∷◌ c s) = is_space (code c) && is_blank s

-- `not s`
unfoldable pub is_empty : String → Bool
is_empty String.[] = true
is_empty (String.◌∷◌ c s) = false

-- `len(s)`
abbrev size : String → ℕ
size String.[] = 0
size (String.◌∷◌ c s) = suc (size s)

-- `s.lstrip()`
unfoldable pub strip_left : String → String
strip_left String.[] = ""
strip_left (String.◌∷◌ c s) =
    let rest = strip_left s in if is_space (code c) then rest else String.◌∷◌ c s

-- `s.rstrip()`: a space stays where something is left behind it.
unfoldable pub strip_right : String → String
strip_right String.[] = ""
strip_right (String.◌∷◌ c s) =
    let rest = strip_right s in if is_space (code c) && is_empty rest then "" else String.◌∷◌ c rest

-- `s.strip()`
unfoldable pub strip : String → String
unfolding strip_left strip_right
strip s = strip_right (strip_left s)

-- `s.endswith(t)`
unfoldable pub ends_with : String → String → Bool
ends_with t String.[] = str_eq t ""
ends_with t (String.◌∷◌ c s) = str_eq t (String.◌∷◌ c s) || ends_with t s

-- `s[:-n]`, where there are so many characters.
unfoldable pub drop_last : ℕ → String → String
drop_last n String.[] = ""
drop_last n (String.◌∷◌ c s) =
    let rest = drop_last n s in if leb n (size s) then String.◌∷◌ c rest else ""

-- `t.join(parts)`
unfoldable pub join : String → List String → String
join t [] = ""
join t (a ∷ []) = a
join t (a ∷ b ∷ rest) = str_append a (str_append t (join t (b ∷ rest)))

-- `s in texts`
unfoldable pub contains_text : String → List String → Bool
contains_text s [] = false
contains_text s (t ∷ ts) = str_eq t s || contains_text s ts
