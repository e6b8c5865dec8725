-- ===== src/Cron/Words.antt =====
-- What the parser of fields makes of numerals and of what it accepts.
use Prim.Native.Char.{code}
use bridge_framework.Base.{
  parse_unsigned-decimal, ℕ, ◌^◌, ◌≤◌, ◌<◌, ◌≡◌, refl, ap, Bool, true, false, ◌&&◌, String, some,
  List, [], ◌∷◌, arith, if◌then◌else◌, Bool-cases, Option-cases, inl, inr, leb, contains, chars,
  split, Result, ok, err, ◌>>=◌, ◌≢◌, decimal, AllDigits, decimal-AllDigits, string_eq, nat_eq,
  ◌==◌, ==_iff,
}
use bridge_framework.Cron.{
  CronField, any, specific, range, step, list, Error, out_of_range, invalid_field, parse_field,
  parse_u32, field_matches, parse_range, parse_step, parse_list,
}

-- Is the field a single value or a step?
abbrev pub is_bounded : CronField → Bool
is_bounded (specific v) = true
is_bounded (step n max) = true
is_bounded _ = false

abbrev IsWithin : ℕ → CronField → Type 0
IsWithin max (specific v) = v ≤ max
IsWithin max (step n m) = m ≡ max
IsWithin max _ = Unit

parse_range-IsWithin :
    (max : ℕ) (parts : List String) (f : CronField) → parse_range parts ≡ ok f → IsWithin max f
parse_range-IsWithin max parts any h = tt
parse_range-IsWithin max parts (range a b) h = tt
parse_range-IsWithin max parts (list l) h = tt
parse_range-IsWithin max [] (specific v) h = absurd (ground arith)
parse_range-IsWithin max (a ∷ []) (specific v) h = absurd (ground arith)
parse_range-IsWithin max (a ∷ b ∷ []) (specific v) h =
    absurd (ground (arith, Option-cases (parse_u32 a), Option-cases (parse_u32 b)))
parse_range-IsWithin max (a ∷ b ∷ c ∷ p) (specific v) h = absurd (ground arith)
parse_range-IsWithin max [] (step n m) h = absurd (ground arith)
parse_range-IsWithin max (a ∷ []) (step n m) h = absurd (ground arith)
parse_range-IsWithin max (a ∷ b ∷ []) (step n m) h =
    absurd (ground (arith, Option-cases (parse_u32 a), Option-cases (parse_u32 b)))
parse_range-IsWithin max (a ∷ b ∷ c ∷ p) (step n m) h = absurd (ground arith)

parse_step-IsWithin :
    (max : ℕ) (parts : List String) (f : CronField) → parse_step max parts ≡ ok f → IsWithin max f
parse_step-IsWithin max [] f h = absurd (ground arith)
parse_step-IsWithin max (a ∷ []) f h = absurd (ground arith)
parse_step-IsWithin max (a ∷ b ∷ c ∷ p) f h = absurd (ground arith)
parse_step-IsWithin max (a ∷ b ∷ []) any h = tt
parse_step-IsWithin max (a ∷ b ∷ []) (range c d) h = tt
parse_step-IsWithin max (a ∷ b ∷ []) (list l) h = tt
parse_step-IsWithin max (a ∷ b ∷ []) (specific v) h =
    absurd (ground (arith, Option-cases (parse_u32 b)))
parse_step-IsWithin max (a ∷ b ∷ []) (step n m) h = ground (arith, Option-cases (parse_u32 b))

listed-IsWithin :
    (max : ℕ) (r : Result Error (List ℕ)) (f : CronField)
    → (r >>= (λ values. ok (list values))) ≡ ok f
    → IsWithin max f
listed-IsWithin max r any h = tt
listed-IsWithin max r (range a b) h = tt
listed-IsWithin max r (list l) h = tt
listed-IsWithin max (ok l) (specific v) h = absurd (ground arith)
listed-IsWithin max (err e) (specific v) h = absurd (ground arith)
listed-IsWithin max (ok l) (step n m) h = absurd (ground arith)
listed-IsWithin max (err e) (step n m) h = absurd (ground arith)

single-IsWithin :
    (min max v : ℕ) (f : CronField)
    → (if leb min v && leb v max then ok (specific v) else err out_of_range) ≡ ok f
    → IsWithin max f
single-IsWithin min max v any h = tt
single-IsWithin min max v (range a b) h = tt
single-IsWithin min max v (list l) h = tt
single-IsWithin min max v (specific w) h = ground arith
single-IsWithin min max v (step n m) h = absurd (ground arith)

any-IsWithin :
    (max : ℕ) (f : CronField) → ◌≡◌ {A = Result Error CronField} (ok any) (ok f) → IsWithin max f
any-IsWithin max any h = tt
any-IsWithin max (range a b) h = tt
any-IsWithin max (list l) h = tt
any-IsWithin max (specific v) h = absurd (ground arith)
any-IsWithin max (step n m) h = absurd (ground arith)

parse_field-IsWithin :
    (field : String) (min max : ℕ) (f : CronField)
    → parse_field field min max ≡ ok f
    → IsWithin max f
unfolding parse_field
parse_field-IsWithin field min max f h = elim (Bool-cases (field == "*")) [
  | inl star ↦ any-IsWithin max f (rw (star, parse_field) at h)
  | inr word ↦ elim (Option-cases (parse_u32 field)) [
    | inr (v, number) ↦ single-IsWithin min max v f (rw (word, number, parse_field) at h)
    | inl other ↦ elim (Bool-cases (contains b'-' (chars field))) [
      | inl dash ↦
          parse_range-IsWithin max (split b'-' field) f (rw (word, other, dash, parse_field) at h)
      | inr no_dash ↦ elim (Bool-cases (contains b'/' (chars field))) [
        | inl slash ↦
            parse_step-IsWithin max (split b'/' field) f
              (rw (word, other, no_dash, slash, parse_field) at h)
        | inr no_slash ↦ elim (Bool-cases (contains b',' (chars field))) [
          | inl comma ↦
              listed-IsWithin max (parse_list (split b',' field)) f
                (rw (word, other, no_dash, no_slash, comma, parse_field) at h)
          | inr no_comma ↦ absurd (
              let bad : ◌≡◌ {A = Result Error CronField} (err invalid_field) (ok f) =
                rw (word, other, no_dash, no_slash, no_comma, parse_field) at h in
              ground arith)
        ]
      ]
    ]
  ]
]

-- A field that was parsed as a single value or as a step matches nothing past the greatest value of
-- its place.
pub parse_field-bounded :
    (field : String) (min max v : ℕ) (f : CronField)
    → parse_field field min max ≡ ok f
    → is_bounded f ≡ true
    → field_matches f v ≡ true
    → v ≤ max
parse_field-bounded field min max v any h b m = absurd (ground arith)
parse_field-bounded field min max v (range a c) h b m = absurd (ground arith)
parse_field-bounded field min max v (list l) h b m = absurd (ground arith)
parse_field-bounded field min max v (specific w) h b m =
    let within : w ≤ max = parse_field-IsWithin field min max (specific w) h in ground arith
parse_field-bounded field min max v (step n k) h b m =
    let within : k ≡ max = parse_field-IsWithin field min max (step n k) h in ground arith

not_star : (s : String) → AllDigits s → (s == "*") ≡ false
not_star String.[] d = ground (arith, ==_iff String.[] "*")
not_star (String.◌∷◌ c s) d =
    let other : (String.◌∷◌ c s) ≢ "*" =
      λ e. (let h : code c ∷ chars s ≡ b'*' ∷ [] = ap chars e in absurd (ground arith)) in
    ground (arith, ==_iff (String.◌∷◌ c s) "*")

-- A 32-bit number is read back from its numeral: the field matches that number and no other if the
-- number is in range for its place, and it is refused if it is not.
pub parse_field-decimal :
    (n min max : ℕ)
    → n < 2 ^ 32
    → parse_field (decimal n) min max
      ≡ (if leb min n && leb n max then ok (specific n) else err out_of_range)
unfolding parse_field parse_u32
parse_field-decimal n min max small =
    let number : parse_u32 (decimal n) ≡ some n = parse_unsigned-decimal (2 ^ 32) n small in
    rw (not_star (decimal n) (decimal-AllDigits n), number, parse_field) refl
