-- ===== src/Storage/Paths.antt =====
-- The path of an object stays in the folder of its bucket.
use bridge_framework.Base.{
  neither, ℕ, ◌≡◌, refl, sym, ap, Bool, true, false, not, ◌&&◌, Option, some, none, [], ◌∷◌, ◌++◌,
  chars, contains, filterb, All, arith, if◌then◌else◌, Bool-cases, inl, inr, ◌==◌, nat_eq, list_eq,
  Chars, unwrap_or,
}
use bridge_framework.Auth.Jwt.{split_of, add_first, begins_with}
use bridge_framework.Storage.{Components, is_skipped, safe_join, bucket_dir, object_path}

abbrev Lacks : ℕ → Components → Type 0
Lacks x = All (λ c. contains x c ≡ false)

add_first-Lacks :
    (x c : ℕ) (parts : Components) → (c == x) ≡ false → Lacks x parts → Lacks x (add_first c parts)
add_first-Lacks x c [] h k = tt
add_first-Lacks x c (s ∷ parts) h k = (rw (h, k.0) refl, k.1)

split_of-Lacks : (d : ℕ) (s : Chars) → Lacks d (split_of d s)
unfolding split_of
split_of-Lacks d [] = (refl, tt)
split_of-Lacks d (c ∷ s) = elim (Bool-cases (c == d)) [
  | inl mark ↦ rw (split_of, mark) (refl, split_of-Lacks d s)
  | inr other ↦ rw (split_of, other) (add_first-Lacks d c (split_of d s) other (split_of-Lacks d s))
]

split_of-contains : (d x : ℕ) (s : Chars) → contains x s ≡ false → Lacks x (split_of d s)
unfolding split_of
split_of-contains d x [] h = (refl, tt)
split_of-contains d x (c ∷ s) h =
    let here : (c == x) ≡ false = ground arith in
    let rest = split_of-contains d x s (ground arith) in
    elim (Bool-cases (c == d)) [
      | inl mark ↦ rw (split_of, mark) (refl, rest)
      | inr other ↦ rw (split_of, other) (add_first-Lacks x c (split_of d s) here rest)
    ]

-- A component that leads one folder down: not empty, neither the folder itself nor the one above, and
-- without a slash or the character 0.
abbrev pub is_down : Chars → Bool
is_down c =
    not (is_skipped c) && not (c == chars "..") && not (contains b'/' c) && not (contains 0 c)

abbrev pub IsDown : Components → Type 0
IsDown = All (λ c. is_down c ≡ true)

all_pass :
    (skip up slash null : Bool)
    → skip ≡ false
    → up ≡ false
    → slash ≡ false
    → null ≡ false
    → (not skip && not up && not slash && not null) ≡ true
all_pass skip up slash null a b c d = rw (a, b, c, d) refl

kept-IsDown :
    (parts : Components)
    → contains (chars "..") parts ≡ false
    → Lacks b'/' parts
    → Lacks 0 parts
    → IsDown (filterb (λ c. not (is_skipped c)) parts)
kept-IsDown [] h k l = tt
kept-IsDown (c ∷ parts) h k l =
    let apart = neither (c == chars "..") (contains (chars "..") parts) h in
    let rest = kept-IsDown parts apart.1 k.1 l.1 in
    elim (Bool-cases (is_skipped c)) [
      | inl skipped ↦ rw skipped rest
      | inr kept ↦
          let down : is_down c ≡ true = all_pass _ _ _ _ kept apart.0 k.0 l.0 in
          rw kept (down, rest)
    ]

chosen :
    (b : Bool) (q p : Components) → (if b then none else some q) ≡ some p → (b ≡ false) × (q ≡ p)
chosen true q p h = absurd (ground arith)
chosen false q p h = (refl, ap (unwrap_or []) h)

-- What a path that was joined adds to its base leads down only, so that it stays below the base.
pub safe_join-IsDown :
    (base p : Components) (rel : Chars)
    → safe_join base rel ≡ some p
    → (below : Components) × (p ≡ base ++ below) × IsDown below
unfolding safe_join
safe_join-IsDown base p rel h =
    let parts = split_of b'/' rel in
    let down = filterb (λ c. not (is_skipped c)) parts in
    let taken = chosen _ (base ++ down) p h in
    let last = neither _ (contains (chars "..") parts) taken.0 in
    let null = neither (contains 0 rel) (begins_with (chars "/") rel) last.0 in
    (
      down,
      sym taken.1,
      kept-IsDown parts last.1 (split_of-Lacks b'/' rel) (split_of-contains b'/' 0 rel null.0),
    )

found-join :
    (b : Bool) (o : Option Components) (p : Components)
    → (if b then none else o) ≡ some p
    → o ≡ some p
found-join true o p h = absurd (ground arith)
found-join false o p h = h

-- The path of an object is the folder of its bucket and components that lead down.
pub object_path-IsDown :
    (bucket key : Chars) (p : Components)
    → object_path bucket key ≡ some p
    → (below : Components) × (p ≡ bucket ∷ below) × IsDown below
unfolding object_path
object_path-IsDown bucket key p h =
    safe_join-IsDown (bucket_dir bucket) p key
      (found-join _ (safe_join (bucket_dir bucket) key) p h)
