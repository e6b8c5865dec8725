-- ===== src/Auth/Objects.antt =====
-- The scanner reads back the whole JSON that claims are printed as.
use mathlib.Core.List.{append-nil}
use bridge_framework.Base.{
  ℕ, zero, suc, ◌+◌, ◌≤◌, ◌≡◌, refl, sym, ap, ◌∙◌, false, ◌&&◌, some, List, [], ◌∷◌, ◌++◌, map,
  chars, decimal, length, is_empty, All, arith, ◌==◌, nat_eq, ==_self, Chars, is_whitespace,
  trim_front, trim_back,
}
use bridge_framework.Auth.Base64.{trim_end_of}
use bridge_framework.Auth.Claims.{escape_json_string, text_part, number_part, quoted, join_parts}
use bridge_framework.Auth.Scan.{read_pair, skip_separators, scan, scan_flat_object}
use bridge_framework.Auth.Ends.{scan-enough}
use bridge_framework.Auth.Fields.{IsPlain, read_pair-text_part}
use bridge_framework.Auth.Numbers.{
  IsClosed, at_end, at_comma, read_pair-number_part, IsDigits, decimal-IsDigits,
}

-- A claim with a text or with a number.
pub data Field : Type 0 where
  text : Chars → Chars → Field
  number : Chars → ℕ → Field

abbrev pub field_part : Field → Chars
field_part (text k v) = text_part (escape_json_string k) v
field_part (number k n) = number_part (escape_json_string k) n

abbrev pub field_pair : Field → Chars × Chars
field_pair (text k v) = (k, v)
field_pair (number k n) = (k, chars (decimal n))

abbrev pub IsField : Field → Type 0
IsField (text k v) = IsPlain k × IsPlain v
IsField (number k n) = IsPlain k

read_pair-field_part :
    (f : Field) (t : Chars)
    → IsField f
    → IsClosed t
    → read_pair (field_part f ++ t) ≡ some (field_pair f, t)
read_pair-field_part (text k v) t h closed = read_pair-text_part k v t h.0 h.1
read_pair-field_part (number k n) t h closed = read_pair-number_part k t n h closed

scan-comma : (n : ℕ) (s : Chars) → scan n (b',' ∷ s) ≡ scan n s
unfolding scan read_pair skip_separators
scan-comma zero s = refl
scan-comma (suc n) s = refl

scan-one :
    (n : ℕ) (f : Field) (t : Chars)
    → IsField f
    → IsClosed t
    → scan (suc n) (field_part f ++ t) ≡ field_pair f ∷ scan n t
unfolding scan
scan-one n f t h closed = rw (scan, read_pair-field_part f t h closed) refl

scan-nil : (n : ℕ) → scan n [] ≡ []
unfolding scan read_pair skip_separators
scan-nil zero = refl
scan-nil (suc n) = refl

abbrev pub AllFields : List Field → Type 0
AllFields = All IsField

scan-join_parts :
    (n : ℕ) (fs : List Field)
    → AllFields fs
    → length fs ≤ n
    → scan n (join_parts (map field_part fs)) ≡ map field_pair fs
scan-join_parts n [] h le = scan-nil n
scan-join_parts zero (f ∷ fs) h le = absurd (omega arith)
scan-join_parts (suc n) (f ∷ []) h le =
    ap (scan (suc n)) (sym (append-nil (field_part f)))
    ∙ scan-one n f [] h.0 at_end
    ∙ ap (λ ps. field_pair f ∷ ps) (scan-nil n)
scan-join_parts (suc n) (f ∷ g ∷ fs) h le =
    let rest = join_parts (map field_part (g ∷ fs)) in
    scan-one n f (b',' ∷ rest) h.0 (at_comma rest)
    ∙ ap (λ ps. field_pair f ∷ ps)
        (scan-comma n rest ∙ scan-join_parts n (g ∷ fs) h.1 (omega arith))

is_empty-append : (s t : Chars) → is_empty t ≡ false → is_empty (s ++ t) ≡ false
is_empty-append [] t h = h
is_empty-append (c ∷ s) t h = refl

-- A text that trimming of closing braces leaves as it is, and so any text in front of it.
trim_end_of-append :
    (d : ℕ) (s t : Chars)
    → is_empty t ≡ false
    → trim_end_of d t ≡ t
    → trim_end_of d (s ++ t) ≡ s ++ t
unfolding trim_end_of
trim_end_of-append d [] t ne h = h
trim_end_of-append d (c ∷ s) t ne h =
    let filled : is_empty (s ++ t) ≡ false = is_empty-append s t ne in
    rw (trim_end_of, trim_end_of-append d s t ne h, filled) refl

trim_end_of-last : (d : ℕ) (s : Chars) → trim_end_of d (s ++ d ∷ []) ≡ trim_end_of d s
unfolding trim_end_of
trim_end_of-last d [] = rw (trim_end_of, ==_self d) refl
trim_end_of-last d (c ∷ s) = rw (trim_end_of, trim_end_of-last d s) refl

trim_back-last :
    (s : Chars) (d : ℕ) → is_whitespace d ≡ false → trim_back (s ++ d ∷ []) ≡ s ++ d ∷ []
unfolding trim_back
trim_back-last [] d h = rw (trim_back, h) refl
trim_back-last (c ∷ s) d h =
    rw (trim_back, trim_back-last s d h, is_empty-append s (d ∷ []) refl) refl

-- The JSON of an object is a brace, the parts and a brace, and only the braces are trimmed.
pub scan_flat_object-braces :
    (s : Chars)
    → trim_end_of b'}' s ≡ s
    → scan_flat_object (b'{' ∷ s ++ b'}' ∷ []) ≡ scan (length s + 1) s
unfolding scan_flat_object trim_front
scan_flat_object-braces s h =
    rw (scan_flat_object, trim_back-last (b'{' ∷ s) b'}' refl, trim_end_of-last b'}' s, h) refl

trim_end_of-part :
    (s t : Chars) (last : ℕ)
    → (last == b'}') ≡ false
    → trim_end_of b'}' (s ++ (t ++ last ∷ [])) ≡ s ++ (t ++ last ∷ [])
unfolding trim_end_of
trim_end_of-part s t last h =
    let alone : trim_end_of b'}' (last ∷ []) ≡ last ∷ [] = rw (trim_end_of, h) refl in
    trim_end_of-append b'}' s (t ++ last ∷ []) (is_empty-append t (last ∷ []) refl)
      (trim_end_of-append b'}' t (last ∷ []) refl alone)

trim_end_of-IsDigits : (s : Chars) → IsDigits s → trim_end_of b'}' s ≡ s
unfolding trim_end_of
trim_end_of-IsDigits [] h = refl
trim_end_of-IsDigits (c ∷ s) h =
    let kept : (is_empty s && c == b'}') ≡ false = ground arith in
    rw (trim_end_of, trim_end_of-IsDigits s h.1, kept) refl

trim_end_of-colon : (s : Chars) → trim_end_of b'}' s ≡ s → trim_end_of b'}' (b':' ∷ s) ≡ b':' ∷ s
unfolding trim_end_of
trim_end_of-colon s h = let kept : (is_empty s && false) ≡ false = ground arith in rw (h, kept) refl

-- A part ends in a quote or in a digit.
trim_end_of-field_part : (f : Field) → trim_end_of b'}' (field_part f) ≡ field_part f
unfolding text_part number_part trim_end_of
trim_end_of-field_part (text k v) =
    trim_end_of-part (quoted (escape_json_string k)) (b':' ∷ b'"' ∷ escape_json_string v) b'"' refl
trim_end_of-field_part (number k n) =
    trim_end_of-append b'}' (quoted (escape_json_string k)) (b':' ∷ chars (decimal n)) refl (
      trim_end_of-colon (chars (decimal n))
        (trim_end_of-IsDigits (chars (decimal n)) (decimal-IsDigits n)))

is_empty-field_part : (f : Field) → is_empty (field_part f) ≡ false
unfolding text_part number_part
is_empty-field_part (text k v) = refl
is_empty-field_part (number k n) = refl

join-field_parts :
    (f : Field) (fs : List Field)
    → let s = join_parts (map field_part (f ∷ fs)) in
      (trim_end_of b'}' s ≡ s) × (is_empty s ≡ false)
unfolding trim_end_of
join-field_parts f [] = (trim_end_of-field_part f, is_empty-field_part f)
join-field_parts f (g ∷ fs) =
    let rest = join-field_parts g fs in
    let tail = join_parts (map field_part (g ∷ fs)) in
    (
      trim_end_of-append b'}' (field_part f) (b',' ∷ tail) refl
          (trim_end_of-append b'}' (b',' ∷ []) tail rest.1 rest.0),
      is_empty-append (field_part f) (b',' ∷ tail) refl,
    )

pub trim_end_of-join_parts :
    (fs : List Field)
    → trim_end_of b'}' (join_parts (map field_part fs)) ≡ join_parts (map field_part fs)
unfolding trim_end_of
trim_end_of-join_parts [] = refl
trim_end_of-join_parts (f ∷ fs) = (join-field_parts f fs).0

-- The JSON of any claims is scanned into their keys and values, in order.
pub scan_flat_object-fields :
    (fs : List Field)
    → AllFields fs
    → scan_flat_object (b'{' ∷ join_parts (map field_part fs) ++ b'}' ∷ []) ≡ map field_pair fs
scan_flat_object-fields fs h =
    let s = join_parts (map field_part fs) in
    let enough : ℕ = length s + length fs + 1 in
    scan_flat_object-braces s (trim_end_of-join_parts fs)
    ∙ scan-enough (length s + 1) enough s (omega arith) (omega arith)
    ∙ scan-join_parts enough fs h (omega arith)
