-- ===== src/Digest/Padding.antt =====
-- The loop that pads a message ends, with whole blocks.
use mathlib.Core.List.{append_assoc, append-nil}
use bridge_framework.Base.{
  ℕ, zero, suc, ◌/◌, ◌+◌, ◌-◌, ◌*◌, ◌%◌, ◌^◌, ◌≤◌, ◌<◌, ◌≡◌, refl, sym, ap, ◌∙◌, List, [], ◌∷◌,
  ◌++◌, length, length-append, arith, Bool-cases, inl, inr, ◌==◌, nat_eq, true, false, ltb,
}
use bridge_framework.Digest.{
  fill, padded, zeros, be_bytes_64, drop_bytes, compress_all, compress, take_bytes, Words,
}

-- How many zeros bring a length to eight bytes before the end of a block.
abbrev pub gap : ℕ → ℕ
gap n = (120 - n % 64) % 64

abbrev longer : List ℕ → List ℕ
longer msg = msg ++ 0 ∷ []

gap-suc : (n : ℕ) → (n % 64 == 56) ≡ false → gap n ≡ suc (gap (n + 1))
gap-suc n h = ground arith

gap-done : (n : ℕ) → (n % 64 == 56) ≡ true → gap n ≡ 0
gap-done n h = ground arith

gap-bound : (n : ℕ) → gap n < 64
gap-bound n = omega arith

length-longer : (msg : List ℕ) → length (longer msg) ≡ length msg + 1
length-longer msg = length-append msg (0 ∷ [])

fill-zeros :
    (rounds : ℕ) (msg : List ℕ)
    → gap (length msg) ≤ rounds
    → fill rounds msg ≡ msg ++ zeros (gap (length msg))
unfolding fill
fill-zeros zero msg h =
    let no_gap : gap (length msg) ≡ 0 = omega arith in rw no_gap (sym (append-nil msg))
fill-zeros (suc n) msg h = elim (Bool-cases (length msg % 64 == 56)) [
  | inl done ↦ rw (fill, done, gap-done (length msg) done) (sym (append-nil msg))
  | inr more ↦
      let fewer = gap-suc (length msg) more in
      let next : gap (length (longer msg)) ≡ gap (length msg + 1) = ap gap (length-longer msg) in
      rw (fill, more)
        (fill-zeros n (longer msg) (omega arith)
          ∙ ap (λ k. longer msg ++ zeros k) next
          ∙ append_assoc msg (0 ∷ []) (zeros (gap (length msg + 1)))
          ∙ ap (λ k. msg ++ zeros k) (sym fewer))
]

length-zeros : (n : ℕ) → length (zeros n) ≡ n
length-zeros zero = refl
length-zeros (suc n) = ap suc (length-zeros n)

-- The padding loop ends: however many rounds beyond 63 it may run, it has added the zeros, fewer
-- than a block of them, that bring the length to eight bytes before the end of a block.
pub fill-ends :
    (rounds : ℕ) (msg : List ℕ)
    → 63 ≤ rounds
    → (fill rounds msg ≡ msg ++ zeros (gap (length msg)))
      × (length (fill rounds msg) % 64 ≡ 56)
      × (length (fill rounds msg) < length msg + 64)
fill-ends rounds msg h =
    let few = gap-bound (length msg) in
    let filled = fill-zeros rounds msg (omega arith) in
    let measured : length (fill rounds msg) ≡ length msg + gap (length msg) =
      ap length filled
      ∙ length-append msg (zeros (gap (length msg)))
      ∙ ap (λ k. length msg + k) (length-zeros (gap (length msg))) in
    (filled, omega arith, omega arith)

-- A padded message consists of whole blocks, which hold its bytes, the marker, zeros and the eight
-- bytes of its length in bits.
pub length-padded :
    (bytes : List ℕ)
    → (length (padded bytes) % 64 ≡ 0)
      × (padded bytes
          ≡ (bytes ++ 0x80 ∷ [])
            ++ zeros (gap (length bytes + 1))
            ++ be_bytes_64 (length bytes * 8 % 2 ^ 64))
unfolding padded
length-padded bytes =
    let msg : List ℕ = bytes ++ 0x80 ∷ [] in
    let ends = fill-ends 64 msg (omega arith) in
    let marked = length-append bytes (0x80 ∷ []) in
    let whole = length-append (fill 64 msg) (be_bytes_64 (length bytes * 8 % 2 ^ 64)) in
    (
      omega arith,
      ap (λ m. m ++ be_bytes_64 (length bytes * 8 % 2 ^ 64))
          (ends.0 ∙ ap (λ k. msg ++ zeros (gap k)) marked),
    )

length-drop_bytes : (n : ℕ) (s : List ℕ) → length (drop_bytes n s) ≡ length s - n
length-drop_bytes zero s = omega arith
length-drop_bytes (suc n) [] = omega arith
length-drop_bytes (suc n) (b ∷ s) = omega (arith, length-drop_bytes n s)

-- However many rounds beyond the number of whole blocks the compression may take, it ends alike.
pub compress_all-enough :
    (n m : ℕ) (msg : List ℕ) (x : Words)
    → length msg / 64 < n
    → length msg / 64 < m
    → compress_all n msg x ≡ compress_all m msg x
unfolding compress_all
compress_all-enough zero m msg x hn hm = absurd (omega arith)
compress_all-enough (suc n) zero msg x hn hm = absurd (omega arith)
compress_all-enough (suc n) (suc m) msg x hn hm = elim (Bool-cases (ltb (length msg) 64)) [
  | inl ended ↦ rw (compress_all, ended) refl
  | inr more ↦
      let long : 64 ≤ length msg = ground arith in
      let shorter = length-drop_bytes 64 msg in
      rw (compress_all, more)
        (compress_all-enough n m (drop_bytes 64 msg) (compress (take_bytes 64 msg) x) (omega arith)
          (omega arith))
]
