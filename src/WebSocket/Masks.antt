-- ===== src/WebSocket/Masks.antt =====
-- A payload under the mask of a client, and the loop of daemon/src/websocket.rs that undoes it.
use Prim.Native.Nat.{bit_xor}
use bridge_framework.Base.{
  ℕ, suc, ◌+◌, ◌%◌, ◌<◌, ◌≡◌, refl, sym, ap, ◌∙◌, List, [], ◌∷◌, length, ◌==◌, nat_eq,
  if◌then◌else◌, arith, All,
}
use bridge_framework.WebSocket.{unmask}
use bridge_framework.WebSocket.Bits.{bit_xor-bit_xor}

-- The byte of the mask at a position: the four come round again and again.
abbrev pub mask_byte : ℕ → ℕ → ℕ → ℕ → ℕ → ℕ
mask_byte a b c d i =
    if i % 4 == 0 then a else if i % 4 == 1 then b else if i % 4 == 2 then c else d

-- The payload from position `i` on, each byte combined with the byte of the mask at its position.
abbrev pub masked : (ℕ → ℕ) → ℕ → List ℕ → List ℕ
masked key i [] = []
masked key i (x ∷ xs) = bit_xor x (key i) ∷ masked key (i + 1) xs

abbrev pub IsBytes : List ℕ → Type 0
IsBytes = All (λ b. b < 256)

pub mask_byte-around : (a b c d i : ℕ) → mask_byte a b c d (i + 4) ≡ mask_byte a b c d i
mask_byte-around a b c d i = let same : (i + 4) % 4 ≡ i % 4 = omega arith in rw (same) refl

pub mask_byte-lt : (a b c d i : ℕ) → IsBytes (a ∷ b ∷ c ∷ d ∷ []) → mask_byte a b c d i < 256
mask_byte-lt a b c d i h = let (ha, (hb, (hc, (hd, u)))) = h in ground arith

-- The decoder's loop, whose mask turns with every byte, undoes a mask that repeats after four.
pub unmask-masked :
    (key : ℕ → ℕ) (i : ℕ) (p : List ℕ)
    → ((j : ℕ) → key (j + 4) ≡ key j)
    → ((j : ℕ) → key j < 256)
    → IsBytes p
    → unmask (key i) (key (i + 1)) (key (i + 2)) (key (i + 3)) (masked key i p) ≡ p
unmask-masked key i [] around small h = refl
unmask-masked key i (x ∷ p) around small h =
    let two : i + 1 + 1 ≡ i + 2 = omega arith in
    let three : i + 1 + 2 ≡ i + 3 = omega arith in
    let four : i + 1 + 3 ≡ i + 4 = omega arith in
    let rest = rw (two, three, four) at (unmask-masked key (i + 1) p around small h.1) in
    ap (λ y. y ∷ unmask (key (i + 1)) (key (i + 2)) (key (i + 3)) (key i) (masked key (i + 1) p))
      (bit_xor-bit_xor x (key i) h.0 (small i))
    ∙ ap (λ k. x ∷ unmask (key (i + 1)) (key (i + 2)) (key (i + 3)) k (masked key (i + 1) p))
        (sym (around i))
    ∙ ap (◌∷◌ x) rest

pub length-masked : (key : ℕ → ℕ) (i : ℕ) (p : List ℕ) → length (masked key i p) ≡ length p
length-masked key i [] = refl
length-masked key i (x ∷ p) = ap suc (length-masked key (i + 1) p)
