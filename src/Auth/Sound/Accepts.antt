-- ===== src/Auth/Sound/Accepts.antt =====
-- The signatures that `jwt_verify` accepts, and the tokens.
use Prim.Native.Nat.{bit_or, bit_xor}
use bridge_framework.Base.{
  both, ℕ, ◌<◌, ◌≤◌, ◌≡◌, refl, sym, ap, ◌∙◌, Bool, true, false, List, [], ◌∷◌, length, arith, ◌==◌,
  nat_eq, ==_iff, all_below, all_below-passes, not, ◌||◌, ◌&&◌, ltb,
}
use bridge_framework.Digest.{take_bytes}
use bridge_framework.Digest.Width.{IsBytes}
use bridge_framework.Auth.Jwt.{difference}

abbrev xor_fits : ℕ → ℕ → Bool
xor_fits a b = ltb (bit_xor a b) 256 && (not (bit_xor a b == 0) || a == b)

abbrev or_fits : ℕ → ℕ → Bool
or_fits a b = ltb (bit_or a b) 256 && (not (bit_or a b == 0) || (a == 0 && b == 0))

xor_table : all_below 256 (λ a. all_below 256 (xor_fits a)) ≡ true
unfolding all_below
xor_table = refl

or_table : all_below 256 (λ a. all_below 256 (or_fits a)) ≡ true
unfolding all_below
or_table = refl

pair-passes :
    (p : ℕ → ℕ → Bool)
    → all_below 256 (λ a. all_below 256 (p a)) ≡ true
    → (a b : ℕ) → a < 256
    → b < 256
    → p a b ≡ true
pair-passes p table a b ha hb =
    all_below-passes 256 (p a) b (all_below-passes 256 (λ a. all_below 256 (p a)) a table ha) hb

implied : (a b : Bool) → (not a || b) ≡ true → a ≡ true → b ≡ true
implied true b h k = h
implied false b h k = absurd (ground arith)

xor-facts : (a b : ℕ) → a < 256 → b < 256 → (bit_xor a b < 256) × (bit_xor a b ≡ 0 → a ≡ b)
xor-facts a b ha hb =
    let parts =
      both (ltb (bit_xor a b) 256) (not (bit_xor a b == 0) || a == b)
        (pair-passes xor_fits xor_table a b ha hb) in
    (
      ground (arith, parts.0),
      λ e.
          (==_iff a b).0
            (implied (bit_xor a b == 0) (a == b) parts.1 ((==_iff (bit_xor a b) 0).1 e)),
    )

or-facts : (a b : ℕ) → a < 256 → b < 256 → (bit_or a b < 256) × (bit_or a b ≡ 0 → (a ≡ 0) × (b ≡ 0))
or-facts a b ha hb =
    let parts =
      both (ltb (bit_or a b) 256) (not (bit_or a b == 0) || (a == 0 && b == 0))
        (pair-passes or_fits or_table a b ha hb) in
    (
      ground (arith, parts.0),
      λ e.
          let zeros =
            both (a == 0) (b == 0) (
              implied (bit_or a b == 0) (a == 0 && b == 0) parts.1 ((==_iff (bit_or a b) 0).1 e)) in
          ((==_iff a 0).0 zeros.0, (==_iff b 0).0 zeros.1),
    )

-- What was set stays set.
pub difference-start :
    (s t : List ℕ) (d : ℕ) → IsBytes s → IsBytes t → d < 256 → difference s t d ≡ 0 → d ≡ 0
unfolding difference
difference-start [] t d hs ht hd e = e
difference-start (a ∷ s) [] d hs ht hd e = e
difference-start (a ∷ s) (b ∷ t) d hs ht hd e =
    let xor = xor-facts a b hs.0 ht.0 in
    let or = or-facts d (bit_xor a b) hd xor.0 in
    (or.1 (difference-start s t (bit_or d (bit_xor a b)) hs.1 ht.1 or.0 e)).0

pub difference-same :
    (s t : List ℕ)
    → IsBytes s
    → IsBytes t
    → length t ≤ length s
    → difference s t 0 ≡ 0
    → take_bytes (length t) s ≡ t
unfolding difference
difference-same s [] hs ht le e = refl
difference-same [] (b ∷ t) hs ht le e = absurd (omega arith)
difference-same (a ∷ s) (b ∷ t) hs ht le e =
    let xor = xor-facts a b hs.0 ht.0 in
    let or = or-facts 0 (bit_xor a b) (omega arith) xor.0 in
    let none_set : bit_or 0 (bit_xor a b) ≡ 0 =
      difference-start s t (bit_or 0 (bit_xor a b)) hs.1 ht.1 or.0 e in
    let here : a ≡ b = xor.1 (or.1 none_set).1 in
    let rest =
      difference-same s t hs.1 ht.1 (omega arith) (ap (difference s t) (sym none_set) ∙ e) in
    ap (λ c. c ∷ take_bytes (length t) s) here ∙ ap (λ u. b ∷ u) rest
