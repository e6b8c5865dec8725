-- ===== src/Auth/Ends.antt =====
-- The scanner of claims ends: each round takes a character at least.
use mathlib.Core.Path.{subst}
use bridge_framework.Base.{
  ℕ, zero, suc, ◌≤◌, ◌<◌, ◌≡◌, refl, ap, Bool, true, false, ◌||◌, Option, some, none, [], ◌∷◌,
  length, arith, Option-cases, Bool-cases, inl, inr, ◌==◌, nat_eq, Chars, is_whitespace,
}
use bridge_framework.Auth.Scan.{
  skip_separators, skip_white, read_quoted, read_bare, read_value, read_pair, after, scan,
  with_value, with_key,
}

length-skip_separators : (s : Chars) → length (skip_separators s) ≤ length s
unfolding skip_separators
length-skip_separators [] = omega arith
length-skip_separators (c ∷ s) = elim (Bool-cases (is_whitespace c || c == b',')) [
  | inl skipped ↦ rw (skip_separators, skipped) (omega (arith, length-skip_separators s))
  | inr kept ↦ rw (skip_separators, kept) (omega arith)
]

length-skip_white : (s : Chars) → length (skip_white s) ≤ length s
unfolding skip_white
length-skip_white [] = omega arith
length-skip_white (c ∷ s) = elim (Bool-cases (is_whitespace c)) [
  | inl skipped ↦ rw (skip_white, skipped) (omega (arith, length-skip_white s))
  | inr kept ↦ rw (skip_white, kept) (omega arith)
]

length-read_quoted : (escaped : Bool) (s : Chars) → length (read_quoted escaped s).1 ≤ length s
unfolding read_quoted
length-read_quoted escaped [] = omega arith
length-read_quoted true (c ∷ s) = omega (arith, length-read_quoted false s)
length-read_quoted false (c ∷ s) =
    let shorter = length-read_quoted (c == b'\\') s in
    elim (Bool-cases (c == b',' || c == b'"')) [
      | inl closed ↦ rw (read_quoted, closed) (omega arith)
      | inr open_still ↦ elim (Bool-cases (c == b'\\')) [
        | inl slash ↦ rw (read_quoted, open_still, slash) (omega (arith, length-read_quoted true s))
        | inr plain ↦
            rw (read_quoted, open_still, plain) (omega (arith, length-read_quoted false s))
      ]
    ]

length-read_bare : (s : Chars) → length (read_bare s).1 ≤ length s
unfolding read_bare
length-read_bare [] = omega arith
length-read_bare (c ∷ s) = elim (Bool-cases (c == b',')) [
  | inl comma ↦ rw (read_bare, comma) (omega arith)
  | inr more ↦ rw (read_bare, more) (omega (arith, length-read_bare s))
]

length-read_value : (s : Chars) → length (read_value s).1 ≤ length s
unfolding read_value
length-read_value [] = omega arith
length-read_value (c ∷ s) = elim (Bool-cases (c == b'"')) [
  | inl quote ↦ rw (read_value, quote) (omega (arith, length-read_quoted false s))
  | inr bare ↦ rw (read_value, bare) (length-read_bare (c ∷ s))
]

length-after : (d : ℕ) (s t : Chars) → after d s ≡ some t → length t < length s
length-after d [] t h = absurd (ground arith)
length-after d (c ∷ s) t h = ground arith

abbrev left_of : Option ((Chars × Chars) × Chars) → Chars
left_of none = []
left_of (some p) = p.1

length-with_value :
    (key : Chars) (o : Option Chars) (s t : Chars) (pair : Chars × Chars)
    → ((u : Chars) → o ≡ some u → length u < length s)
    → with_value key o ≡ some (pair, t)
    → length t < length s
length-with_value key none s t pair short h = absurd (ground arith)
length-with_value key (some u) s t pair short h =
    let left : (read_value (skip_white u)).1 ≡ t = ap left_of h in
    let here = short u refl in
    let white = length-skip_white u in
    let value = length-read_value (skip_white u) in
    subst (λ v. length v < length s) left (omega arith)

length-with_key :
    (o : Option Chars) (s t : Chars) (pair : Chars × Chars)
    → ((u : Chars) → o ≡ some u → length u < length s)
    → with_key o ≡ some (pair, t)
    → length t < length s
length-with_key none s t pair short h = absurd (ground arith)
length-with_key (some u) s t pair short h =
    let key = read_quoted false u in
    let here = short u refl in
    let read = length-read_quoted false u in
    let white = length-skip_white key.1 in
    length-with_value key.0 (after b':' (skip_white key.1)) s t pair
      (λ v e. let colon = length-after b':' (skip_white key.1) v e in omega arith) h

length-read_pair :
    (s t : Chars) (pair : Chars × Chars) → read_pair s ≡ some (pair, t) → length t < length s
unfolding read_pair
length-read_pair s t pair h =
    let skipped = length-skip_separators s in
    length-with_key (after b'"' (skip_separators s)) s t pair
      (λ v e. let quote = length-after b'"' (skip_separators s) v e in omega arith) h

-- However many rounds beyond the number of characters the scanner may take, it finds the same claims.
pub scan-enough : (n m : ℕ) (s : Chars) → length s < n → length s < m → scan n s ≡ scan m s
unfolding scan
scan-enough zero m s hn hm = absurd (omega arith)
scan-enough (suc n) zero s hn hm = absurd (omega arith)
scan-enough (suc n) (suc m) s hn hm = elim (Option-cases (read_pair s)) [
  | inl done ↦ rw (scan, done) refl
  | inr ((pair, t), e) ↦
      let shorter = length-read_pair s t pair e in
      rw (scan, e) (ap (λ ps. pair ∷ ps) (scan-enough n m t (omega arith) (omega arith)))
]
