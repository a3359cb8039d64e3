-- ===== src/Domain/Uuid/Digits.antt =====
-- The 32 digits of a UUID: what is read off each digit, and reading back the number.
use Prim.Native.String.{[], ◌∷◌}
use native.Mathlib.Nat.{mod-lt, pow-suc, div-add-mod'}
use text.Mathlib.TextLemmas.{length-cons}
use fast_api_ddd_template.Base.{
  ℕ, zero, suc, ◌+◌, ◌*◌, ◌/◌, ◌%◌, ◌^◌, ◌<◌, ◌≡◌, refl, ap, ◌∙◌, Bool, true, false, not, ◌&&◌,
  Option, none, some, String, count, Char, code, ◌==◌, arith,
}
use fast_api_ddd_template.Domain.Uuid.{hex_value, hex_char, hex_text, is_brace, read_hex}

-- A lower-case hexadecimal digit.
abbrev pub IsDigit : Char → Type 0
IsDigit c = (d : ℕ) × (d < 16) × (c ≡ hex_char d)

abbrev pub AllDigits : String → Type 0
AllDigits [] = Unit
AllDigits (c ∷ s) = IsDigit c × AllDigits s

-- What is read off each of the sixteen digits, checked by evaluation.
is_some : ℕ → Option ℕ → Bool
is_some n none = false
is_some n (some m) = m == n

digit_test : ℕ → Bool
unfolding hex_value hex_char is_brace is_some
digit_test d =
    let c = hex_char d in
    is_some d (hex_value c) && not (code c == 45) && not (code c == 117) && not (is_brace c)

-- The test holds of every number under a bound.
holds_under : (ℕ → Bool) → ℕ → Bool
holds_under test zero = true
holds_under test (suc bound) = holds_under test bound && test bound

holds_under-at :
    (test : ℕ → Bool) (bound d : ℕ) → d < bound → holds_under test bound ≡ true → test d ≡ true
unfolding holds_under
holds_under-at test zero d under all = absurd (omega arith)
holds_under-at test (suc bound) d under all = ground (arith, holds_under-at test bound d)

digit_table : holds_under digit_test 16 ≡ true
unfolding holds_under digit_test
digit_table = refl

pub record DigitFacts (d : ℕ) : Type 0 where
  pub reads : hex_value (hex_char d) ≡ some d
  pub no_hyphen : (code (hex_char d) == 45) ≡ false
  pub no_u : (code (hex_char d) == 117) ≡ false
  pub no_brace : is_brace (hex_char d) ≡ false

digit_facts_of_test :
    (d : ℕ) (c : Char)
    → (is_some d (hex_value c) && not (code c == 45) && not (code c == 117) && not (is_brace c))
      ≡ true
    → (hex_value c ≡ some d)
      × ((code c == 45) ≡ false)
      × ((code c == 117) ≡ false)
      × (is_brace c ≡ false)
unfolding is_some
digit_facts_of_test d c h = ground arith

pub digit_facts : (d : ℕ) → d < 16 → DigitFacts d
digit_facts d h =
    let f =
      digit_facts_of_test d (hex_char d)
        (unfold digit_test in holds_under-at digit_test 16 d h digit_table) in
    record { reads = f.0; no_hyphen = f.1; no_u = f.2; no_brace = f.3 }

digit_bound : (n b : ℕ) → n < 16 * b → n / b < 16
digit_bound n b h = grind arith

power_pos : (w : ℕ) → 0 < 16 ^ w
power_pos zero = omega arith
power_pos (suc w) = omega (arith, pow-suc 16 w, power_pos w)

power_step : (w n : ℕ) → n < 16 ^ suc w → n < 16 * 16 ^ w
power_step w n h = omega (arith, pow-suc 16 w)

pub AllDigits-hex_text : (w n : ℕ) → n < 16 ^ w → AllDigits (hex_text w n)
unfolding hex_text
AllDigits-hex_text zero n h = tt
AllDigits-hex_text (suc w) n h = (
  (n / 16 ^ w, digit_bound n (16 ^ w) (power_step w n h), refl),
  AllDigits-hex_text w (n % 16 ^ w) (mod-lt n (power_pos w)),
)

pub count-hex_text : (w n : ℕ) → count (hex_text w n) ≡ w
unfolding hex_text
count-hex_text zero n = refl
count-hex_text (suc w) n = length-cons _ _ ∙ ap suc (count-hex_text w (n % 16 ^ w))

read_hex-cons :
    (acc d : ℕ) (c : Char) (s : String)
    → hex_value c ≡ some d
    → read_hex acc (c ∷ s) ≡ read_hex (acc * 16 + d) s
unfolding read_hex
read_hex-cons acc d c s e = rw (e, read_hex)

place_value : (acc n b : ℕ) → (acc * 16 + n / b) * b + n % b ≡ acc * (b * 16) + n
place_value acc n b = grind (arith, div-add-mod' n b)

pub read_hex-hex_text :
    (w n acc : ℕ) → n < 16 ^ w → read_hex acc (hex_text w n) ≡ some (acc * 16 ^ w + n)
unfolding hex_text
read_hex-hex_text zero n acc h = unfold read_hex in ap some (omega arith)
read_hex-hex_text (suc w) n acc h =
    read_hex-cons acc (n / 16 ^ w) _ _
      (digit_facts (n / 16 ^ w) (digit_bound n _ (power_step w n h))).reads
    ∙ read_hex-hex_text w (n % 16 ^ w) (acc * 16 + n / 16 ^ w) (mod-lt n (power_pos w))
    ∙ rw (pow-suc 16 w) (ap some (place_value acc n (16 ^ w)))
