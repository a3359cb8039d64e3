-- ===== src/Domain/Uuid.antt =====
-- `uuid.UUID` of Python's standard library, as app/domain/value_objects/user_id.py and the
-- routes use it: a 128-bit number, `str(u)` and `UUID(text)`. The documented texts are read:
-- 32 hexadecimal digits, with hyphens, braces and a URN prefix optional.
mod Digits
pub mod RoundTrip
use Prim.Native.String.{[], ◌∷◌}
use fast_api_ddd_template.Base.{
  ℕ, zero, suc, ◌+◌, ◌-◌, ◌*◌, ◌/◌, ◌%◌, ◌^◌, Bool, true, false, ◌&&◌, ◌||◌, Option, none, some,
  String, count, Char, code, ◌==◌, leb, if◌then◌else◌, concat,
}
use fast_api_ddd_template.Domain.Errors.{Result, ok, err, value_error}

-- The value of a hexadecimal digit.
pub hex_value : Char → Option ℕ
hex_value c =
    if leb b'0' (code c) && leb (code c) b'9'
    then some (code c - 48)
    else if leb b'a' (code c) && leb (code c) b'f'
    then some (code c - 87)
    else if leb b'A' (code c) && leb (code c) b'F'
    then some (code c - 55)
    else none

pub hex_char : ℕ → Char
hex_char zero = "0"
hex_char (suc zero) = "1"
hex_char (suc (suc zero)) = "2"
hex_char (suc (suc (suc zero))) = "3"
hex_char (suc (suc (suc (suc zero)))) = "4"
hex_char (suc (suc (suc (suc (suc zero))))) = "5"
hex_char (suc (suc (suc (suc (suc (suc zero)))))) = "6"
hex_char (suc (suc (suc (suc (suc (suc (suc zero))))))) = "7"
hex_char (suc (suc (suc (suc (suc (suc (suc (suc zero)))))))) = "8"
hex_char (suc (suc (suc (suc (suc (suc (suc (suc (suc zero))))))))) = "9"
hex_char (suc (suc (suc (suc (suc (suc (suc (suc (suc (suc zero)))))))))) = "a"
hex_char (suc (suc (suc (suc (suc (suc (suc (suc (suc (suc (suc zero))))))))))) = "b"
hex_char (suc (suc (suc (suc (suc (suc (suc (suc (suc (suc (suc (suc zero)))))))))))) = "c"
hex_char (suc (suc (suc (suc (suc (suc (suc (suc (suc (suc (suc (suc (suc zero))))))))))))) = "d"
hex_char (suc (suc (suc (suc (suc (suc (suc (suc (suc (suc (suc (suc (suc (suc zero)))))))))))))) =
    "e"
hex_char _ = "f"

-- `'%0wx' % n`, for n below 16 ^ w.
pub hex_text : ℕ → ℕ → String
hex_text zero n = []
hex_text (suc w) n = hex_char (n / 16 ^ w) ∷ hex_text w (n % 16 ^ w)

-- `s[:n]` and `s[n:]`
abbrev pub prefix : ℕ → String → String
prefix zero s = []
prefix (suc n) [] = []
prefix (suc n) (c ∷ s) = c ∷ prefix n s

abbrev pub suffix : ℕ → String → String
suffix zero s = s
suffix (suc n) [] = []
suffix (suc n) (c ∷ s) = suffix n s

hyphenate : String → String
hyphenate hex = concat (prefix 8 hex) (
    "-"
    ∷ concat (prefix 4 (suffix 8 hex)) (
        "-"
        ∷ concat (prefix 4 (suffix 12 hex))
            ("-" ∷ concat (prefix 4 (suffix 16 hex)) ("-" ∷ suffix 20 hex))))

-- `str(u)`
unfoldable pub uuid_text : ℕ → String
unfolding hex_char hex_text hyphenate
uuid_text u = hyphenate (hex_text 32 u)

abbrev begins : String → String → Bool
begins [] s = true
begins (c ∷ p) [] = false
begins (c ∷ p) (d ∷ s) = code c == code d && begins p s

-- `s.replace(needle, '')`, with a count of the characters of a match still to skip.
remove_from : String → ℕ → String → String
remove_from needle skip [] = []
remove_from needle zero (c ∷ s) = elim (begins needle (c ∷ s)) [
  | true ↦ remove_from needle (count needle - 1) s
  | false ↦ c ∷ remove_from needle zero s
]
remove_from needle (suc k) (c ∷ s) = remove_from needle k s

remove : String → String → String
unfolding remove_from
remove needle s = remove_from needle 0 s

pub is_brace : Char → Bool
is_brace c = code c == 123 || code c == 125

-- `s.strip('{}')`
strip_left : String → String
strip_left [] = []
strip_left (c ∷ s) = let rest = strip_left s in if is_brace c then rest else c ∷ s

keep_before : Char → String → String
keep_before c [] = if is_brace c then [] else c ∷ []
keep_before c (d ∷ t) = c ∷ d ∷ t

strip_right : String → String
unfolding keep_before
strip_right [] = []
strip_right (c ∷ s) = keep_before c (strip_right s)

-- `int(hex, 16)`, on digits.
pub read_hex : ℕ → String → Option ℕ
read_hex acc [] = some acc
read_hex acc (c ∷ s) = elim (hex_value c) [ none ↦ none | some d ↦ read_hex (acc * 16 + d) s ]

normalise : String → String
unfolding remove strip_left strip_right is_brace
normalise text = remove "-" (strip_right (strip_left (remove "uuid:" (remove "urn:" text))))

from_hex : String → Result ℕ
unfolding read_hex
from_hex hex =
    if count hex == 32
    then elim (read_hex 0 hex) [
      | none ↦ err (value_error "invalid literal for int() with base 16")
      | some u ↦ ok u
    ]
    else err (value_error "badly formed hexadecimal UUID string")

-- `UUID(text)`
unfoldable pub parse_uuid : String → Result ℕ
unfolding hex_value normalise from_hex
parse_uuid text = from_hex (normalise text)
