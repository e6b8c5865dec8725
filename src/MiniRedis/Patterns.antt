-- ===== src/MiniRedis/Patterns.antt =====
-- The patterns of `KEYS`: `glob` of miniredis/src/lib.rs, which knows a `*` at either end.
pub mod Agrees
use bridge_framework.Base.{
  ℕ, Bool, true, false, ◌&&◌, ◌||◌, String, Option, none, some, List, [], ◌∷◌, chars, map_some,
  if◌then◌else◌, ◌==◌, nat_eq, list_eq,
}
use bridge_framework.Glob.{star}

abbrev pub starts_with : List ℕ → List ℕ → Bool
starts_with [] t = true
starts_with (c ∷ p) [] = false
starts_with (c ∷ p) (x ∷ t) = c == x && starts_with p t

abbrev pub contains_run : List ℕ → List ℕ → Bool
contains_run p [] = starts_with p []
contains_run p (x ∷ t) = starts_with p (x ∷ t) || contains_run p t

abbrev pub ends_with : List ℕ → List ℕ → Bool
ends_with p [] = p == []
ends_with p (x ∷ t) = p == x ∷ t || ends_with p t

-- `strip_suffix('*')`
abbrev pub strip_star : List ℕ → Option (List ℕ)
strip_star [] = none
strip_star (c ∷ []) = if c == star then some [] else none
strip_star (c ∷ d ∷ p) = map_some (λ q. c ∷ q) (strip_star (d ∷ p))

abbrev pub after_star : List ℕ → List ℕ → Bool
after_star s t = elim (strip_star s) [ some p ↦ contains_run p t | none ↦ ends_with s t ]

abbrev pub without_star : List ℕ → List ℕ → Bool
without_star p t = elim (strip_star p) [ some q ↦ starts_with q t | none ↦ p == t ]

unfoldable pub glob_chars : List ℕ → List ℕ → Bool
glob_chars [] t = without_star [] t
glob_chars (c ∷ s) t =
    if c ∷ s == star ∷ []
    then true
    else if c == star
    then after_star s t
    else without_star (c ∷ s) t

unfoldable pub glob : String → String → Bool
unfolding glob_chars
glob pattern text = glob_chars (chars pattern) (chars text)
