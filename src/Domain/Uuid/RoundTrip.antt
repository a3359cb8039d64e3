-- ===== src/Domain/Uuid/RoundTrip.antt =====
-- `UUID` on the texts that `str` makes.
use Prim.Native.String.{[], ◌∷◌}
use native.Mathlib.Nat.{zero-add, suc-add}
use text.Mathlib.TextLemmas.{nil-append, cons-append}
use fast_api_ddd_template.Base.{
  ℕ, zero, suc, ◌+◌, ◌^◌, ◌<◌, ◌≡◌, refl, sym, ap, ◌∙◌, false, String, Char, code, ◌==◌, concat,
  arith,
}
use fast_api_ddd_template.Domain.Errors.{ok}
use fast_api_ddd_template.Domain.Uuid.{
  hex_text, prefix, suffix, hyphenate, uuid_text, begins, remove_from, is_brace, strip_left,
  strip_right, keep_before, normalise, from_hex, parse_uuid,
}
use fast_api_ddd_template.Domain.Uuid.Digits.{
  IsDigit, AllDigits, digit_facts, AllDigits-hex_text, count-hex_text, read_hex-hex_text,
}

-- A text whose characters are hexadecimal digits or hyphens.
abbrev IsPlain : Char → Type 0
IsPlain c = (is_brace c ≡ false) × ((code c == 117) ≡ false)

abbrev AllPlain : String → Type 0
AllPlain [] = Unit
AllPlain (c ∷ s) = IsPlain c × AllPlain s

begins_u :
    (p : String) (c : Char) (s : String)
    → (code c == 117) ≡ false
    → begins ("u" ∷ p) (c ∷ s) ≡ false
begins_u p c s h = ground arith

-- No URN prefix is found in a plain text.
remove-plain : (p : String) (s : String) → AllPlain s → remove_from ("u" ∷ p) 0 s ≡ s
unfolding remove_from
remove-plain p [] h = refl
remove-plain p (c ∷ s) h =
    rw (begins_u p c s h.0.1, remove_from) (ap (◌∷◌ c) (remove-plain p s h.1))

strip_left-plain : (s : String) → AllPlain s → strip_left s ≡ s
unfolding strip_left
strip_left-plain [] h = refl
strip_left-plain (c ∷ s) h = rw (h.0.0)

strip_right-plain : (s : String) → AllPlain s → strip_right s ≡ s
unfolding strip_right
strip_right-plain [] h = refl
strip_right-plain (c ∷ s) h = ap (keep_before c) (strip_right-plain s h.1) ∙ kept c s h.0.0
  where
    kept : (c : Char) (s : String) → is_brace c ≡ false → keep_before c s ≡ c ∷ s
    kept c [] e = rw e
    kept c (d ∷ t) e = refl

-- Removing the hyphens.
dash-cons :
    (c : Char) (s : String)
    → (code c == 45) ≡ false
    → remove_from "-" 0 (c ∷ s) ≡ c ∷ remove_from "-" 0 s
unfolding remove_from
dash-cons c s e = rw (begins_dash, remove_from)
  where
    begins_dash : begins "-" (c ∷ s) ≡ false
    begins_dash = ground arith

dash-dash : (s : String) → remove_from "-" 0 ("-" ∷ s) ≡ remove_from "-" 0 s
unfolding remove_from
dash-dash s = refl

digit_no_hyphen : (c : Char) → IsDigit c → (code c == 45) ≡ false
digit_no_hyphen c (d, h, e) = rw e ((digit_facts d h).no_hyphen)

digit-IsPlain : (c : Char) → IsDigit c → IsPlain c
digit-IsPlain c (d, h, e) = rw e ((digit_facts d h).no_brace, (digit_facts d h).no_u)

dash-digits :
    (s t : String) → AllDigits s → remove_from "-" 0 (concat s t) ≡ concat s (remove_from "-" 0 t)
dash-digits [] t h = rw (nil-append t, nil-append (remove_from "-" 0 t))
dash-digits (c ∷ s) t h =
    rw (cons-append c s t, cons-append c s (remove_from "-" 0 t))
      (dash-cons c _ (digit_no_hyphen c h.0) ∙ ap (◌∷◌ c) (dash-digits s t h.1))

dash_only : (s : String) → AllDigits s → remove_from "-" 0 s ≡ s
dash_only [] h = unfold remove_from in refl
dash_only (c ∷ s) h = dash-cons c s (digit_no_hyphen c h.0) ∙ ap (◌∷◌ c) (dash_only s h.1)

dash_group :
    (s t : String)
    → AllDigits s
    → remove_from "-" 0 (concat s ("-" ∷ t)) ≡ concat s (remove_from "-" 0 t)
dash_group s t h = dash-digits s ("-" ∷ t) h ∙ ap (λ (x : String). concat s x) (dash-dash t)

AllDigits-prefix : (n : ℕ) (s : String) → AllDigits s → AllDigits (prefix n s)
AllDigits-prefix zero s h = tt
AllDigits-prefix (suc n) [] h = tt
AllDigits-prefix (suc n) (c ∷ s) h = (h.0, AllDigits-prefix n s h.1)

AllDigits-suffix : (n : ℕ) (s : String) → AllDigits s → AllDigits (suffix n s)
AllDigits-suffix zero s h = h
AllDigits-suffix (suc n) [] h = tt
AllDigits-suffix (suc n) (c ∷ s) h = AllDigits-suffix n s h.1

AllPlain-group : (s t : String) → AllDigits s → AllPlain t → AllPlain (concat s t)
AllPlain-group [] t h k = rw (nil-append t) k
AllPlain-group (c ∷ s) t h k =
    rw (cons-append c s t) (digit-IsPlain c h.0, AllPlain-group s t h.1 k)

AllPlain-digits : (s : String) → AllDigits s → AllPlain s
AllPlain-digits [] h = tt
AllPlain-digits (c ∷ s) h = (digit-IsPlain c h.0, AllPlain-digits s h.1)

prefix-suffix : (n : ℕ) (s : String) → concat (prefix n s) (suffix n s) ≡ s
prefix-suffix zero s = nil-append s
prefix-suffix (suc n) [] = nil-append []
prefix-suffix (suc n) (c ∷ s) = cons-append c _ _ ∙ ap (◌∷◌ c) (prefix-suffix n s)

suffix-nil : (n : ℕ) → suffix n [] ≡ []
suffix-nil zero = refl
suffix-nil (suc n) = refl

suffix-suffix : (m n : ℕ) (s : String) → suffix m (suffix n s) ≡ suffix (n + m) s
suffix-suffix m zero s = rw (zero-add m)
suffix-suffix m (suc n) [] = suffix-nil m ∙ sym (suffix-nil (suc n + m))
suffix-suffix m (suc n) (c ∷ s) = rw (suc-add n m) (suffix-suffix m n s)

join_group : (m n : ℕ) (s : String) → concat (prefix m (suffix n s)) (suffix (n + m) s) ≡ suffix n s
join_group m n s = rw (← suffix-suffix m n s) (prefix-suffix m (suffix n s))

-- The hyphenated text is plain, and without its hyphens it is the digits.
module _ (hex : String) (digits : AllDigits hex) where
  hyphenate-AllPlain : AllPlain (hyphenate hex)
  unfolding hyphenate is_brace
  hyphenate-AllPlain = group 8 0 _ (
      group 4 8 _
        (group 4 12 _ (group 4 16 _ (AllPlain-digits _ (AllDigits-suffix 20 hex digits)))))
    where
      group :
          (m n : ℕ) (t : String)
          → AllPlain t
          → AllPlain (concat (prefix m (suffix n hex)) ("-" ∷ t))
      group m n t h =
          AllPlain-group _ _ (AllDigits-prefix m _ (AllDigits-suffix n hex digits))
            ((refl, refl), h)

  remove-hyphenate : remove_from "-" 0 (hyphenate hex) ≡ hex
  unfolding hyphenate is_brace
  remove-hyphenate =
      part 8 0 _
        (part 4 8 _ (part 4 12 _ (part 4 16 _ (dash_only _ (AllDigits-suffix 20 hex digits)))))
    where
      part :
          (m n : ℕ) (t : String)
          → remove_from "-" 0 t ≡ suffix (n + m) hex
          → remove_from "-" 0 (concat (prefix m (suffix n hex)) ("-" ∷ t)) ≡ suffix n hex
      part m n t e =
          dash_group _ t (AllDigits-prefix m _ (AllDigits-suffix n hex digits))
          ∙ ap (λ (x : String). concat (prefix m (suffix n hex)) x) e
          ∙ join_group m n hex

  normalise-hyphenate : normalise (hyphenate hex) ≡ hex
  unfolding normalise
  normalise-hyphenate =
      rw
        (
          remove-plain "rn:" _ hyphenate-AllPlain,
          remove-plain "uid:" _ hyphenate-AllPlain,
          strip_left-plain _ hyphenate-AllPlain,
          strip_right-plain _ hyphenate-AllPlain,
        )
        remove-hyphenate

-- Reading the text of a UUID gives the UUID back, for every 128-bit number.
pub parse_uuid-uuid_text : (u : ℕ) → u < 2 ^ 128 → parse_uuid (uuid_text u) ≡ ok u
unfolding parse_uuid uuid_text
parse_uuid-uuid_text u h =
    ap from_hex (normalise-hyphenate (hex_text 32 u) (AllDigits-hex_text 32 u h))
    ∙ rw (count-hex_text 32 u, read_hex-hex_text 32 u 0 h, from_hex) (ap ok (zero-add u))
