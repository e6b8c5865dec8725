-- ===== src/Auth/Sound/Signatures.antt =====
-- The signatures that `jwt_verify` accepts.
use Prim.Native.Nat.{bit_xor}
use bridge_framework.Base.{
  ℕ, ◌%◌, ◌≡◌, ◌↔◌, refl, sym, ap, ◌∙◌, true, List, [], ◌∷◌, length, arith, nat_eq, ==_iff,
}
use bridge_framework.Digest.{take_bytes}
use bridge_framework.Digest.Width.{IsBytes}
use bridge_framework.Auth.Jwt.{difference, is_signature}
use bridge_framework.Auth.Sound.{bit_xor-thirty_two}
use bridge_framework.Auth.Sound.Accepts.{difference-start, difference-same}
use bridge_framework.Auth.Verifies.{difference_self}

difference-take :
    (s t : List ℕ) (d : ℕ) → difference s t d ≡ difference (take_bytes (length t) s) t d
unfolding difference
difference-take [] [] d = refl
difference-take [] (b ∷ t) d = refl
difference-take (a ∷ s) [] d = refl
difference-take (a ∷ s) (b ∷ t) d = difference-take s t _

-- Where 32 bytes are expected, a signature of bytes is accepted exactly if its first 32 bytes are
-- those and its length has the low byte of 32: any multiple of 256 bytes may follow.
pub is_signature_iff :
    (got expected : List ℕ)
    → IsBytes got
    → IsBytes expected
    → length expected ≡ 32
    → (is_signature got expected ≡ true)
      ↔ ((length got % 256 ≡ 32) × (take_bytes 32 got ≡ expected))
unfolding is_signature
is_signature_iff got expected hg he width =
    let seed : ℕ = bit_xor (length got) (length expected) % 256 in
    let low = bit_xor-thirty_two (length got) in
    let seed_low : seed ≡ bit_xor (length got) 32 % 256 =
      ap (λ n. bit_xor (length got) n % 256) width in
    (
      λ h.
          let zero_now : difference got expected seed ≡ 0 =
            (==_iff (difference got expected seed) 0).0 h in
          let seed_zero = difference-start got expected seed hg he (omega arith) zero_now in
          let long : length got % 256 ≡ 32 = low.0 (sym seed_low ∙ seed_zero) in
          (
            long,
            ap (λ n. take_bytes n got) (sym width)
                ∙ difference-same got expected hg he (omega arith)
                    (ap (difference got expected) (sym seed_zero) ∙ zero_now),
          ),
      λ h.
          let seed_zero : seed ≡ 0 = seed_low ∙ low.1 h.0 in
          let same : take_bytes (length expected) got ≡ expected =
            ap (λ n. take_bytes n got) width ∙ h.1 in
          (==_iff (difference got expected seed) 0).1 (
            ap (difference got expected) seed_zero
            ∙ difference-take got expected 0
            ∙ ap (λ s. difference s expected 0) same
            ∙ difference_self expected he),
    )
