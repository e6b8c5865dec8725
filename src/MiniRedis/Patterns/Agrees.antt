-- ===== src/MiniRedis/Patterns/Agrees.antt =====
-- Where the patterns of `KEYS` mean what the other matchers' patterns mean.
use mathlib.Core.Path.{subst}
use mathlib.Core.List.{append-nil}
use bridge_framework.Base.{
  ℕ, ◌≡◌, ◌≢◌, ◌↔◌, refl, sym, ap, Bool, true, false, List, [], ◌∷◌, ◌++◌, none, some, map_some,
  ◌==◌, nat_eq, list_eq, arith,
}
use bridge_framework.Glob.{star, question, Matches, glob}
use bridge_framework.Glob.Decides.{glob_iff}
use bridge_framework.MiniRedis.Patterns.{
  starts_with, contains_run, ends_with, strip_star, after_star, without_star, glob_chars,
}

-- No wildcard.
abbrev pub Plain : List ℕ → Type 0
Plain [] = Unit
Plain (c ∷ p) = (c ≢ star) × (c ≢ question) × Plain p

abbrev pub stars : Bool → List ℕ
stars true = star ∷ []
stars false = []

equal-glob : (p t : List ℕ) → Plain p → (p == t) ≡ glob p t
unfolding glob
equal-glob [] [] plain = refl
equal-glob [] (x ∷ t) plain = refl
equal-glob (c ∷ p) [] plain = ground arith
equal-glob (c ∷ p) (x ∷ t) plain = ground (arith, equal-glob p t plain.2)

glob-star : (t : List ℕ) → glob (star ∷ []) t ≡ true
unfolding glob
glob-star [] = refl
glob-star (x ∷ t) = ground (arith, glob-star t)

starts_with-glob : (p t : List ℕ) → Plain p → starts_with p t ≡ glob (p ++ star ∷ []) t
unfolding glob
starts_with-glob [] t plain = sym (glob-star t)
starts_with-glob (c ∷ p) [] plain = ground arith
starts_with-glob (c ∷ p) (x ∷ t) plain = ground (arith, starts_with-glob p t plain.2)

ends_with-glob : (p t : List ℕ) → Plain p → ends_with p t ≡ glob (star ∷ p) t
unfolding glob
ends_with-glob p [] plain = equal-glob p [] plain
ends_with-glob p (x ∷ t) plain =
    rw (ends_with, equal-glob p (x ∷ t) plain, ends_with-glob p t plain) refl

contains_run-glob : (p t : List ℕ) → Plain p → contains_run p t ≡ glob (star ∷ p ++ star ∷ []) t
unfolding glob
contains_run-glob p [] plain = starts_with-glob p [] plain
contains_run-glob p (x ∷ t) plain =
    rw (contains_run, starts_with-glob p (x ∷ t) plain, contains_run-glob p t plain) refl

strip_star-stars : (p : List ℕ) → strip_star (p ++ star ∷ []) ≡ some p
strip_star-stars [] = refl
strip_star-stars (c ∷ []) = refl
strip_star-stars (c ∷ d ∷ p) = ap (map_some (λ q. c ∷ q)) (strip_star-stars (d ∷ p))

strip_star-Plain : (p : List ℕ) → Plain p → strip_star p ≡ none
strip_star-Plain [] plain = refl
strip_star-Plain (c ∷ []) plain = ground arith
strip_star-Plain (c ∷ d ∷ p) plain = ap (map_some (λ q. c ∷ q)) (strip_star-Plain (d ∷ p) plain.2)

after_star-glob :
    (trail : Bool) (p t : List ℕ)
    → Plain p
    → after_star (p ++ stars trail) t ≡ glob (star ∷ p ++ stars trail) t
after_star-glob true p t plain = rw (after_star, strip_star-stars p) (contains_run-glob p t plain)
after_star-glob false p t plain =
    subst (λ q. after_star q t ≡ glob (star ∷ q) t) (sym (append-nil p))
      (rw (after_star, strip_star-Plain p plain) (ends_with-glob p t plain))

without_star-glob :
    (trail : Bool) (p t : List ℕ)
    → Plain p
    → without_star (p ++ stars trail) t ≡ glob (p ++ stars trail) t
without_star-glob true p t plain =
    rw (without_star, strip_star-stars p) (starts_with-glob p t plain)
without_star-glob false p t plain =
    subst (λ q. without_star q t ≡ glob q t) (sym (append-nil p))
      (rw (without_star, strip_star-Plain p plain) (equal-glob p t plain))

glob_chars-glob :
    (lead trail : Bool) (p t : List ℕ)
    → Plain p
    → glob_chars (stars lead ++ p ++ stars trail) t ≡ glob (stars lead ++ p ++ stars trail) t
unfolding glob_chars
glob_chars-glob true trail (c ∷ p) t plain = after_star-glob trail (c ∷ p) t plain
glob_chars-glob true true [] t plain = after_star-glob true [] t plain
glob_chars-glob true false [] t plain = sym (glob-star t)
glob_chars-glob false true [] t plain = sym (glob-star t)
glob_chars-glob false false [] t plain = without_star-glob false [] t plain
glob_chars-glob false trail (c ∷ p) t plain =
    let ordinary : (c == star) ≡ false = ground arith in
    rw (glob_chars, ordinary) (without_star-glob trail (c ∷ p) t plain)

-- A pattern of KEYS without wildcards but for a `*` at its front, at its end, at both or at neither
-- matches what it means: a `*` stands for any run of characters, and all else for itself.
pub glob_chars-ends_iff :
    (lead trail : Bool) (p t : List ℕ)
    → Plain p
    → (glob_chars (stars lead ++ p ++ stars trail) t ≡ true)
      ↔ Matches (stars lead ++ p ++ stars trail) t
glob_chars-ends_iff lead trail p t plain =
    rw (glob_chars-glob lead trail p t plain) (glob_iff (stars lead ++ p ++ stars trail) t)
