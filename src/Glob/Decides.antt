-- ===== src/Glob/Decides.antt =====
-- The function decides the relation, and reading both lists backwards changes nothing.
use mathlib.Core.List.{append-nil, append_assoc, reverse-append, reverse-cons}
use bridge_framework.Base.{
  ℕ, ◌≡◌, refl, sym, ap, ◌↔◌, true, List, [], ◌∷◌, ◌++◌, reverse, arith, Bool-cases, inl, inr, ◌==◌,
  nat_eq,
}
use bridge_framework.Glob.{star, question, Matches, done, run, any_char, literal, glob}

extend : {c : ℕ} {p t : List ℕ} (x : ℕ) → c ≡ star → Matches (c ∷ p) t → Matches (c ∷ p) (x ∷ t)
extend x e (run s q h m) = run (x ∷ s) q (ap (◌∷◌ x) h) m
extend x e (any_char q m) = absurd (omega arith)
extend x e (literal n q m) = absurd (n e)

pub Matches-glob : (p t : List ℕ) → glob p t ≡ true → Matches p t
unfolding glob
Matches-glob [] [] h = done
Matches-glob [] (x ∷ t) h = absurd (ground arith)
Matches-glob (c ∷ p) [] h = run [] (ground arith) refl (Matches-glob p [] (ground arith))
Matches-glob (c ∷ p) (x ∷ t) h = elim (Bool-cases (c == star)) [
  | inl is ↦ elim (Bool-cases (glob p (x ∷ t))) [
    | inl skip ↦ run [] (ground arith) refl (Matches-glob p (x ∷ t) skip)
    | inr more ↦ extend x (ground arith) (Matches-glob (c ∷ p) t (ground arith))
  ]
  | inr other ↦ elim (Bool-cases (c == question)) [
    | inl q ↦ any_char (ground arith) (Matches-glob p t (ground arith))
    | inr lit ↦ literal (ground arith) (ground arith) (Matches-glob p t (ground arith))
  ]
]

glob-run : (c : ℕ) (p s t : List ℕ) → c ≡ star → glob p t ≡ true → glob (c ∷ p) (s ++ t) ≡ true
unfolding glob
glob-run c p [] [] e h = ground arith
glob-run c p [] (x ∷ t) e h = ground arith
glob-run c p (y ∷ s) t e h = ground (arith, glob-run c p s t e h)

pub glob-Matches : {p t : List ℕ} → Matches p t → glob p t ≡ true
unfolding glob
glob-Matches done = refl
glob-Matches (run {c} {p} {t} s e h m) = rw h (glob-run c p s t e (glob-Matches m))
glob-Matches (any_char e m) = ground (arith, glob-Matches m)
glob-Matches (literal n e m) = ground (arith, glob-Matches m)

Matches-append : {p q s t : List ℕ} → Matches p s → Matches q t → Matches (p ++ q) (s ++ t)
Matches-append done n = n
Matches-append {q = q} (run {c} {p} {t} r e h m) n =
    run r e (rw (h, append_assoc)) (Matches-append {q = q} m n)
Matches-append (any_char e m) n = any_char e (Matches-append m n)
Matches-append (literal k e m) n = literal k e (Matches-append m n)

one_run : {c : ℕ} (s : List ℕ) → c ≡ star → Matches (c ∷ []) s
one_run s e = run s e (sym (append-nil s)) done

pub Matches-reverse : {p t : List ℕ} → Matches p t → Matches (reverse p) (reverse t)
Matches-reverse done = done
Matches-reverse (run {c} {p} {t} s e h m) =
    rw (h, reverse-cons c p, reverse-append s t)
      (Matches-append (Matches-reverse m) (one_run (reverse s) e))
Matches-reverse (any_char {c} {x} {p} {t} e m) =
    rw (reverse-cons c p, reverse-cons x t) (Matches-append (Matches-reverse m) (any_char e done))
Matches-reverse (literal {c} {x} {p} {t} k e m) =
    rw (reverse-cons c p, reverse-cons x t) (Matches-append (Matches-reverse m) (literal k e done))

-- The function decides the relation.
pub glob_iff : (p t : List ℕ) → (glob p t ≡ true) ↔ Matches p t
glob_iff p t = (Matches-glob p t, glob-Matches)
