-- ===== src/Glob.antt =====
-- Glob patterns over code points: `*` stands for any run of characters and `?` for any single one.
-- The relation is the meaning that the matchers of db/src/lib.rs and daemon/src/cache.rs share; the
-- function decides it, and the matchers are compared with it.
pub mod Decides
pub mod Table
pub mod Backtrack
use bridge_framework.Base.{
  ℕ, ◌≡◌, ◌≢◌, ◌&&◌, ◌||◌, Bool, true, false, String, List, [], ◌∷◌, ◌++◌, ◌==◌, nat_eq,
  if◌then◌else◌,
}

abbrev pub star : ℕ
star = b'*'

abbrev pub question : ℕ
question = b'?'

pub data Matches : List ℕ → List ℕ → Type 0 where
  done : Matches [] []
  run :
      {c : ℕ} {p t u : List ℕ} (s : List ℕ)
      → c ≡ star
      → u ≡ s ++ t
      → Matches p t
      → Matches (c ∷ p) u
  any_char : {c x : ℕ} {p t : List ℕ} → c ≡ question → Matches p t → Matches (c ∷ p) (x ∷ t)
  literal : {c x : ℕ} {p t : List ℕ} → c ≢ star → c ≡ x → Matches p t → Matches (c ∷ p) (x ∷ t)

-- Does one pattern character, other than `*`, stand for one character?
abbrev pub fits : ℕ → ℕ → Bool
fits c x = c == question || c == x

unfoldable pub glob : List ℕ → List ℕ → Bool
glob [] [] = true
glob [] (x ∷ t) = false
glob (c ∷ p) [] = c == star && glob p []
glob (c ∷ p) (x ∷ t) =
    let skip = glob p (x ∷ t) in
    let take = glob (c ∷ p) t in
    let step = glob p t in if c == star then skip || take else fits c x && step
