-- ===== src/WebSocket/Bits.antt =====
-- The exclusive or of bytes undoes itself.
use Prim.Native.Nat.{bit_xor}
use bridge_framework.Base.{
  ℕ, ◌<◌, ◌≡◌, refl, true, ◌==◌, nat_eq, ==_iff, all_below, all_below-passes,
}

undone : all_below 256 (λ a. all_below 256 (λ b. bit_xor (bit_xor a b) b == a)) ≡ true
unfolding all_below
undone = refl

pub bit_xor-bit_xor : (a b : ℕ) → a < 256 → b < 256 → bit_xor (bit_xor a b) b ≡ a
bit_xor-bit_xor a b ha hb = (==_iff (bit_xor (bit_xor a b) b) a).0 (
    all_below-passes 256 (λ b. bit_xor (bit_xor a b) b == a) b
      (all_below-passes 256 (λ a. all_below 256 (λ b. bit_xor (bit_xor a b) b == a)) a undone ha)
      hb)
