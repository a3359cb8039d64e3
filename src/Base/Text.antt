-- ===== src/Base/Text.antt =====
-- Python's methods on texts that entrypoint.py and app/config call. Letters and blanks are those of ASCII.
use Prim.Native.String.{[], ◌∷◌}
use fast_api_ddd_template.Base.{
  Bool, true, ◌&&◌, ◌||◌, ◌==◌, String, Char, code, leb, str_eq, if◌then◌else◌,
}

-- `s.endswith(t)`
unfoldable pub ends_with : String → String → Bool
ends_with [] t = str_eq [] t
ends_with (c ∷ s) t = str_eq (c ∷ s) t || ends_with s t

is_blank : Char → Bool
is_blank c = code c == 32 || leb 9 (code c) && leb (code c) 13

lstrip : String → String
lstrip [] = []
lstrip (c ∷ s) = if is_blank c then lstrip s else c ∷ s

all_blank : String → Bool
all_blank [] = true
all_blank (c ∷ s) = is_blank c && all_blank s

rstrip : String → String
rstrip [] = []
rstrip (c ∷ s) = if all_blank (c ∷ s) then [] else c ∷ rstrip s

-- `s.strip()`
unfoldable pub strip : String → String
unfolding is_blank lstrip all_blank rstrip
strip s = rstrip (lstrip s)

translate : String → String → Char → Char
translate (u ∷ us) (l ∷ ls) c = if code u == code c then l else translate us ls c
translate _ _ c = c

lower_char : Char → Char
unfolding translate
lower_char = translate "ABCDEFGHIJKLMNOPQRSTUVWXYZ" "abcdefghijklmnopqrstuvwxyz"

-- `s.lower()`
unfoldable pub lower : String → String
unfolding lower_char
lower [] = []
lower (c ∷ s) = lower_char c ∷ lower s
