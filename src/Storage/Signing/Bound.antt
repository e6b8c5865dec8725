-- ===== src/Storage/Signing/Bound.antt =====
-- A signature is bound to one request: the signed texts of different requests differ.
use bridge_framework.Base.{
  ℕ, ◌+◌, ◌-◌, ◌*◌, ◌≡◌, refl, sym, ap, ◌∙◌, true, false, [], ◌∷◌, ◌++◌, chars, decimal,
  decimal-AllDigits, value, value-decimal, contains, arith, nat_eq, ==_self, Chars, AllDigits,
  String,
}
use bridge_framework.Storage.Signing.{signed_text}

abbrev tail_of : Chars → Chars
tail_of [] = []
tail_of (c ∷ s) = s

abbrev head_of : Chars → ℕ
head_of [] = 0
head_of (c ∷ s) = c

contains-middle : (d : ℕ) (s t : Chars) → contains d (s ++ d ∷ t) ≡ true
contains-middle d [] t = rw (==_self d) refl
contains-middle d (c ∷ s) t = rw (contains-middle d s t) (ground arith)

-- Texts are cut alike at the first mark where their fronts have none.
cut_first :
    (d : ℕ) (s u t v : Chars)
    → contains d s ≡ false
    → contains d u ≡ false
    → s ++ d ∷ t ≡ u ++ d ∷ v
    → (s ≡ u) × (t ≡ v)
cut_first d [] [] t v hs hu e = (refl, ap tail_of e)
cut_first d [] (c ∷ u) t v hs hu e =
    let same : d ≡ c = ap head_of e in absurd (ground (arith, ==_self d))
cut_first d (c ∷ s) [] t v hs hu e =
    let same : c ≡ d = ap head_of e in absurd (ground (arith, ==_self d))
cut_first d (c ∷ s) (b ∷ u) t v hs hu e =
    let rest = cut_first d s u t v (ground arith) (ground arith) (ap tail_of e) in
    let same : c ≡ b = ap head_of e in (ap (λ x. x ∷ s) same ∙ ap (λ w. b ∷ w) rest.0, rest.1)

-- And at the last mark where their ends have none.
cut_last :
    (d : ℕ) (s u t v : Chars)
    → contains d t ≡ false
    → contains d v ≡ false
    → s ++ d ∷ t ≡ u ++ d ∷ v
    → (s ≡ u) × (t ≡ v)
cut_last d [] [] t v ht hv e = (refl, ap tail_of e)
cut_last d [] (c ∷ u) t v ht hv e =
    let bad : contains d t ≡ true = ap (λ w. contains d (tail_of w)) e ∙ contains-middle d u v in
    absurd (ground arith)
cut_last d (c ∷ s) [] t v ht hv e =
    let bad : contains d v ≡ true =
      ap (λ w. contains d (tail_of w)) (sym e) ∙ contains-middle d s t in
    absurd (ground arith)
cut_last d (c ∷ s) (b ∷ u) t v ht hv e =
    let rest = cut_last d s u t v ht hv (ap tail_of e) in
    let same : c ≡ b = ap head_of e in (ap (λ x. x ∷ s) same ∙ ap (λ w. b ∷ w) rest.0, rest.1)

digits-no_bar : (s : String) → AllDigits s → contains b'|' (chars s) ≡ false
digits-no_bar String.[] h = refl
digits-no_bar (String.◌∷◌ c s) h = ground (arith, digits-no_bar s h.2)

value_of : Chars → ℕ → ℕ
value_of [] v = v
value_of (c ∷ s) v = value_of s (v * 10 + (c - 48))

value_of-chars : (s : String) (v : ℕ) → value_of (chars s) v ≡ value v s
unfolding value_of value
value_of-chars String.[] v = refl
value_of-chars (String.◌∷◌ c s) v = value_of-chars s _

decimal-back : (m n : ℕ) → chars (decimal m) ≡ chars (decimal n) → m ≡ n
decimal-back m n e =
    sym (value-decimal m)
    ∙ sym (value_of-chars (decimal m) 0)
    ∙ ap (λ s. value_of s 0) e
    ∙ value_of-chars (decimal n) 0
    ∙ value-decimal n

-- Two requests whose methods and buckets have no bar are signed as the same text only if they are the
-- same request, whatever their keys are.
pub signed_text-injective :
    (method method2 bucket bucket2 key key2 : Chars) (exp exp2 : ℕ)
    → contains b'|' method ≡ false
    → contains b'|' method2 ≡ false
    → contains b'|' bucket ≡ false
    → contains b'|' bucket2 ≡ false
    → signed_text method bucket key exp ≡ signed_text method2 bucket2 key2 exp2
    → (method ≡ method2) × (bucket ≡ bucket2) × (key ≡ key2) × (exp ≡ exp2)
signed_text-injective method method2 bucket bucket2 key key2 exp exp2 hm hm2 hb hb2 e =
    let first = cut_first b'|' method method2 _ _ hm hm2 e in
    let second = cut_first b'|' bucket bucket2 _ _ hb hb2 first.1 in
    let third =
      cut_last b'|' key key2 (chars (decimal exp)) (chars (decimal exp2))
        (digits-no_bar (decimal exp) (decimal-AllDigits exp))
        (digits-no_bar (decimal exp2) (decimal-AllDigits exp2)) second.1 in
    (first.0, second.0, third.0, decimal-back exp exp2 third.1)
