-- ===== src/Glob/Table.antt =====
-- `glob_match` of db/src/lib.rs: a table of Booleans filled row by row, one row for each prefix of
-- the pattern and one cell for each prefix of the text. A row is kept as the list of its cells.
use mathlib.Core.List.{reverse_aux, reverse-reverse}
use bridge_framework.Base.{
  chars, ℕ, ◌≡◌, refl, sym, ap, ◌∙◌, ◌↔◌, reverse, ◌||◌, Bool, true, false, String, List, [], ◌∷◌,
  map, arith, ◌==◌, nat_eq, if◌then◌else◌,
}
use bridge_framework.Glob.{star, question, Matches, glob}
use bridge_framework.Glob.Decides.{Matches-reverse, glob_iff}

-- `dp[i][j]` from `dp[i - 1][j]`, `dp[i][j - 1]` and `dp[i - 1][j - 1]`.
cell : ℕ → ℕ → Bool → Bool → Bool → Bool
cell c x up left diag =
    if c == star then up || left else if c == question || c == x then diag else false

-- The inner loop: the cell to the left, the cell above it to the left, the text that is left, and
-- the cells above.
row_cells : ℕ → Bool → Bool → List ℕ → List Bool → List Bool
row_cells c left diag [] ups = []
row_cells c left diag (x ∷ t) [] = []
row_cells c left diag (x ∷ t) (up ∷ ups) =
    let here = cell c x up left diag in here ∷ row_cells c here up t ups

next_row : ℕ → List ℕ → List Bool → List Bool
next_row c t [] = []
next_row c t (up ∷ ups) =
    let first = if c == star then up else false in first ∷ row_cells c first up t ups

first_row : List ℕ → List Bool
first_row t = true ∷ map (λ x. false) t

fill : List ℕ → List ℕ → List Bool → List Bool
fill [] t row = row
fill (c ∷ p) t row = fill p t (next_row c t row)

last_or : Bool → List Bool → Bool
last_or d [] = d
last_or d (b ∷ bs) = last_or b bs

glob_chars : List ℕ → List ℕ → Bool
glob_chars p t = last_or false (fill p t (first_row t))

unfoldable pub glob_match : String → String → Bool
unfolding glob_chars fill first_row next_row row_cells cell last_or
glob_match pattern text = glob_chars (chars pattern) (chars text)

-- What a row holds: the answers for the prefixes of the text, both lists read backwards.
after : List ℕ → List ℕ → List ℕ → List Bool
after rp rt [] = []
after rp rt (x ∷ t) = glob rp (x ∷ rt) ∷ after rp (x ∷ rt) t

cell-glob :
    (c x : ℕ) (rp rt : List ℕ)
    → cell c x (glob rp (x ∷ rt)) (glob (c ∷ rp) rt) (glob rp rt) ≡ glob (c ∷ rp) (x ∷ rt)
unfolding cell glob
cell-glob c x rp rt = ground arith

row_cells-after :
    (c : ℕ) (rp rt t : List ℕ)
    → row_cells c (glob (c ∷ rp) rt) (glob rp rt) t (after rp rt t) ≡ after (c ∷ rp) rt t
unfolding row_cells after
row_cells-after c rp rt [] = refl
row_cells-after c rp rt (x ∷ t) =
    rw (cell-glob c x rp rt) (ap (◌∷◌ (glob (c ∷ rp) (x ∷ rt))) (row_cells-after c rp (x ∷ rt) t))

next_row-after :
    (c : ℕ) (rp t : List ℕ)
    → next_row c t (glob rp [] ∷ after rp [] t) ≡ glob (c ∷ rp) [] ∷ after (c ∷ rp) [] t
unfolding next_row
next_row-after c rp t =
    let e : (if c == star then glob rp [] else false) ≡ glob (c ∷ rp) [] =
      unfold glob in ground arith in
    rw e (ap (◌∷◌ (glob (c ∷ rp) [])) (row_cells-after c rp [] t))

first_row-after : (rt t : List ℕ) → map (λ x. false) t ≡ after [] rt t
unfolding after glob
first_row-after rt [] = refl
first_row-after rt (x ∷ t) = ap (◌∷◌ false) (first_row-after (x ∷ rt) t)

fill-after :
    (p rp t : List ℕ)
    → fill p t (glob rp [] ∷ after rp [] t)
      ≡ glob (reverse_aux p rp) [] ∷ after (reverse_aux p rp) [] t
unfolding fill
fill-after [] rp t = refl
fill-after (c ∷ p) rp t = rw (next_row-after c rp t) (fill-after p (c ∷ rp) t)

last_or-after :
    (rp rt t : List ℕ) → last_or (glob rp rt) (after rp rt t) ≡ glob rp (reverse_aux t rt)
unfolding last_or after
last_or-after rp rt [] = refl
last_or-after rp rt (x ∷ t) = last_or-after rp (x ∷ rt) t

glob_chars-reverse : (p t : List ℕ) → glob_chars p t ≡ glob (reverse p) (reverse t)
unfolding glob_chars first_row last_or
glob_chars-reverse p t =
    let start : true ∷ map (λ x. false) t ≡ glob [] [] ∷ after [] [] t =
      unfold glob in ap (◌∷◌ true) (first_row-after [] t) in
    rw (start, fill-after p [] t) (last_or-after (reverse p) [] t)

glob_chars_iff : (p t : List ℕ) → (glob_chars p t ≡ true) ↔ Matches p t
glob_chars_iff p t = (
  λ h.
      rw (reverse-reverse p, reverse-reverse t) at
        (Matches-reverse ((glob_iff (reverse p) (reverse t)).0 (sym (glob_chars-reverse p t) ∙ h))),
  λ m. glob_chars-reverse p t ∙ (glob_iff _ _).1 (Matches-reverse m),
)

-- The table's last cell is set exactly when the pattern matches the text: `*` any run of
-- characters, `?` any one character, and every other character itself.
pub glob_match_iff :
    (pattern text : String)
    → (glob_match pattern text ≡ true) ↔ Matches (chars pattern) (chars text)
unfolding glob_match
glob_match_iff pattern text = glob_chars_iff (chars pattern) (chars text)
