-- ===== src/Glob/Backtrack.antt =====
-- `glob_match` and `glob_rec` of daemon/src/cache.rs: a matcher that tries every position after a
-- `*`. An index into the pattern or the text is the list of what is left from there. The fuel
-- bounds the characters of the pattern that are still to be read.
use Prim.Native.Nat.{suc, zero}
use bridge_framework.Base.{
  ℕ, ◌≤◌, ◌≡◌, refl, sym, ap, ◌∙◌, ◌↔◌, ◌&&◌, ◌||◌, Bool, true, false, not, String, List, [], ◌∷◌,
  arith, ◌==◌, ==_iff, nat_eq, string_eq, if◌then◌else◌, Bool-cases, inl, inr, chars, contains,
  length, is_empty,
}
use text.Mathlib.TextEquality.{Char-path}
use bridge_framework.Glob.{star, question, Matches, glob}
use bridge_framework.Glob.Decides.{glob_iff}

-- The collapse of consecutive stars.
skip_stars : List ℕ → List ℕ
skip_stars [] = []
skip_stars (c ∷ p) = if c == star then skip_stars p else c ∷ p

-- Does some suffix of the text pass?
any_suffix : (List ℕ → Bool) → List ℕ → Bool
any_suffix f [] = f []
any_suffix f (x ∷ t) = f (x ∷ t) || any_suffix f t

-- `c` is the pattern's character at hand, and `rest` goes on behind one character of the text.
consume : ℕ → List ℕ → (List ℕ → Bool) → Bool
consume c [] rest = false
consume c (x ∷ t) rest = if c == question || c == x then rest t else false

glob_rec : ℕ → List ℕ → List ℕ → Bool
unfolding skip_stars any_suffix consume
glob_rec zero p t = is_empty t
glob_rec (suc f) [] t = is_empty t
glob_rec (suc f) (c ∷ p) t =
    if c == star
    then (let later = skip_stars p in
        if is_empty later then true else any_suffix (glob_rec f later) t)
    else consume c t (glob_rec f p)

unfoldable pub glob_match : String → String → Bool
unfolding glob_rec
glob_match pattern text =
    let p = chars pattern in
    if not (contains star p) && not (contains question p)
    then pattern == text
    else glob_rec (length p) p (chars text)

any_suffix-ext :
    (f g : List ℕ → Bool) (t : List ℕ)
    → ((s : List ℕ) → f s ≡ g s)
    → any_suffix f t ≡ any_suffix g t
unfolding any_suffix
any_suffix-ext f g [] h = h []
any_suffix-ext f g (x ∷ t) h = rw (h (x ∷ t), any_suffix-ext f g t h) refl

any_suffix-glob : (c : ℕ) (p t : List ℕ) → c ≡ star → any_suffix (glob p) t ≡ glob (c ∷ p) t
unfolding any_suffix glob
any_suffix-glob c p [] e = ground arith
any_suffix-glob c p (x ∷ t) e = ground (arith, any_suffix-glob c p t e)

glob-star-star : (c : ℕ) (p t : List ℕ) → c ≡ star → glob (c ∷ p) t ≡ glob (c ∷ c ∷ p) t
unfolding glob
glob-star-star c p [] e = ground arith
glob-star-star c p (x ∷ t) e = ground (arith, glob-star-star c p t e)

glob-skip_stars : (c : ℕ) (p t : List ℕ) → c ≡ star → glob (c ∷ skip_stars p) t ≡ glob (c ∷ p) t
unfolding skip_stars
glob-skip_stars c [] t e = refl
glob-skip_stars c (d ∷ p) t e = elim (Bool-cases (d == star)) [
  | inl is ↦
      let same : c ≡ d = ground arith in
      rw (is, skip_stars)
        (glob-skip_stars c p t e ∙ glob-star-star c p t e ∙ ap (λ i. glob (c ∷ i ∷ p) t) same)
  | inr other ↦ rw (other, skip_stars) refl
]

glob-star : (c : ℕ) (t : List ℕ) → c ≡ star → glob (c ∷ []) t ≡ true
unfolding glob
glob-star c [] e = ground arith
glob-star c (x ∷ t) e = ground (arith, glob-star c t e)

length-skip_stars : (p : List ℕ) → length (skip_stars p) ≤ length p
unfolding skip_stars
length-skip_stars [] = omega arith
length-skip_stars (c ∷ p) = ground (arith, length-skip_stars p)

consume-glob : (c : ℕ) (p t : List ℕ) → (c == star) ≡ false → consume c t (glob p) ≡ glob (c ∷ p) t
unfolding consume glob
consume-glob c p [] h = ground arith
consume-glob c p (x ∷ t) h = ground arith

consume-ext :
    (c : ℕ) (f g : List ℕ → Bool) (t : List ℕ)
    → ((s : List ℕ) → f s ≡ g s)
    → consume c t f ≡ consume c t g
unfolding consume
consume-ext c f g [] h = refl
consume-ext c f g (x ∷ t) h = rw (h t) refl

glob_rec-glob : (f : ℕ) (p t : List ℕ) → length p ≤ f → glob_rec f p t ≡ glob p t
unfolding glob_rec
glob_rec-glob zero [] [] h = unfold glob in refl
glob_rec-glob zero [] (x ∷ t) h = unfold glob in refl
glob_rec-glob zero (c ∷ p) t h = absurd (omega arith)
glob_rec-glob (suc f) [] [] h = unfold glob in refl
glob_rec-glob (suc f) [] (x ∷ t) h = unfold glob in refl
glob_rec-glob (suc f) (c ∷ p) t h = elim (Bool-cases (c == star)) [
  | inl is ↦
      let e : c ≡ star = ground arith in
      let enough : length (skip_stars p) ≤ f = omega (arith, length-skip_stars p) in
      let collapsed = glob-skip_stars c p t e in
      let rec = glob_rec-glob f (skip_stars p) in
      elim (Bool-cases (is_empty (skip_stars p))) [
        | inl last ↦
            let none_left : skip_stars p ≡ [] = ground arith in
            rw (is, glob_rec, last) (sym (glob-star c t e) ∙ (rw none_left at collapsed))
        | inr more ↦
            rw (is, glob_rec, more)
              (any_suffix-ext (glob_rec f (skip_stars p)) (glob (skip_stars p)) t
                  (λ s. rec s enough)
                ∙ any_suffix-glob c (skip_stars p) t e
                ∙ collapsed)
      ]
  | inr other ↦
      rw (other, glob_rec)
        (consume-ext c (glob_rec f p) (glob p) t (λ s. glob_rec-glob f p s (omega arith))
          ∙ consume-glob c p t other)
]

chars-injective : (s t : String) → chars s ≡ chars t → s ≡ t
chars-injective String.[] String.[] h = refl
chars-injective String.[] (String.◌∷◌ d t) h = absurd (ground arith)
chars-injective (String.◌∷◌ c s) String.[] h = absurd (ground arith)
chars-injective (String.◌∷◌ c s) (String.◌∷◌ d t) h =
    let first : c ≡ d = Char-path c d (ground arith) in
    let rest : s ≡ t = chars-injective s t (ground arith) in rw (first, rest) refl

glob-plain :
    (p t : List ℕ)
    → contains star p ≡ false
    → contains question p ≡ false
    → (glob p t ≡ true) ↔ (p ≡ t)
unfolding glob
glob-plain [] [] a b = (λ _. refl, λ _. refl)
glob-plain [] (x ∷ t) a b = ground arith
glob-plain (c ∷ p) [] a b = ground arith
glob-plain (c ∷ p) (x ∷ t) a b = ground (arith, glob-plain p t)

-- The matcher answers true exactly when the pattern matches the text: `*` any run of characters, `?`
-- any one character, and every other character itself; the shortcut for a pattern without either
-- changes nothing.
pub backtrack_iff :
    (pattern text : String)
    → (glob_match pattern text ≡ true) ↔ Matches (chars pattern) (chars text)
unfolding glob_match
backtrack_iff pattern text =
    let p = chars pattern in
    let t = chars text in
    elim (Bool-cases (not (contains star p) && not (contains question p))) [
      | inl plain ↦
          let same = glob-plain p t (ground arith) (ground arith) in
          rw (plain, glob_match)
            (
              λ h. (glob_iff p t).0 (same.1 (ap chars ((==_iff pattern text).0 h))),
              λ m.
                  (==_iff pattern text).1
                    (chars-injective pattern text (same.0 ((glob_iff p t).1 m))),
            )
      | inr wild ↦ rw (wild, glob_match, glob_rec-glob (length p) p t (omega arith)) (glob_iff p t)
    ]
