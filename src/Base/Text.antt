-- ===== src/Base/Text.antt =====
-- Python's string methods over the native text, as far as the program uses them.
use Prim.Native.Char.{Char, code}
use Prim.Native.String.{String}
use mathlib.Core.Path.{◌≡◌}
use mathlib.Core.Bool.{Bool, true, false, ◌&&◌, ◌||◌}
use mathlib.Core.Option.{Option, none, some}
use native.Mathlib.Omega.{arith}
use package.game_gardens_of_karaxas.Base.Tests.{nat_eq, leb, if◌then◌else◌, string_equality}

-- `str.isspace` of one character: the code points that `str.strip` takes off.
unfoldable pub is_space : Char → Bool
is_space c =
    let n = code c in
    (leb 9 n && leb n 13)
    || (leb 28 n && leb n 32)
    || nat_eq n 0x85
    || nat_eq n 0xa0
    || nat_eq n 0x1680
    || (leb 0x2000 n && leb n 0x200a)
    || nat_eq n 0x2028
    || nat_eq n 0x2029
    || nat_eq n 0x202f
    || nat_eq n 0x205f
    || nat_eq n 0x3000

abbrev pub is_empty : String → Bool
is_empty String.[] = true
is_empty (String.◌∷◌ _ _) = false

-- `str.lstrip`
unfoldable pub lstrip : String → String
unfolding is_space
lstrip String.[] = String.[]
lstrip (String.◌∷◌ c s) = let rest = lstrip s in if is_space c then rest else String.◌∷◌ c s

-- `str.rstrip`
unfoldable pub rstrip : String → String
unfolding is_space
rstrip String.[] = String.[]
rstrip (String.◌∷◌ c s) =
    let rest = rstrip s in if is_space c && is_empty rest then String.[] else String.◌∷◌ c rest

-- `str.strip`
unfoldable pub strip : String → String
unfolding lstrip rstrip
strip s = rstrip (lstrip s)

-- `s.strip() or d`
unfoldable pub strip_or : String → String → String
unfolding strip
strip_or s d = let t = strip s in if is_empty t then d else t

-- `s.strip() or None`
unfoldable pub strip_or_none : String → Option String
unfolding strip
strip_or_none s = let t = strip s in if is_empty t then none else some t

pub strip_or-nonempty : (s d : String) → is_empty d ≡ false → is_empty (strip_or s d) ≡ false
unfolding strip_or
strip_or-nonempty s d h = ground arith
