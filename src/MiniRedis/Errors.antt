-- ===== src/MiniRedis/Errors.antt =====
-- When a command that replies an error has not changed the store: the steps that the operations of
-- the children share.
pub mod Operations
pub mod Commands
use bridge_framework.Base.{
  ℕ, ◌≡◌, ◌⊎◌, inl, inr, refl, sym, ap, ◌∙◌, Bool, true, false, String, Option, none, some, List,
  [], ◌∷◌, if◌then◌else◌, string_eq, arith, Option-cases, Bool-cases, ℤ, parse_i64,
}
use bridge_framework.Base.Map
use bridge_framework.Base.Map.{get-insert_known}
use bridge_framework.MiniRedis.{
  Resp, Outcome, Entry, Store, reply, panicked, error, live, read, is_expired,
}
use bridge_framework.MiniRedis.Live.{live-absent, live-alive, live-expired}
use bridge_framework.MiniRedis.Dispatch.{
  done, fail, one_arg, two_args, three_args, some_args, key_and_args, with_i64, not_integer,
}

abbrev pub is_error : Resp → Bool
is_error (error m) = true
is_error _ = false

abbrev pub failed : Outcome → Bool
failed (reply r) = is_error r
failed panicked = false

-- An error, by a test of the reply, leaves the entry of every key.
abbrev pub Keeps {ℓ} : {R : Type ℓ} → (R → Bool) → Store → Store × R → Type 0
Keeps bad s r = bad r.1 ≡ true → (k : String) → Map.get k r.0 ≡ Map.get k s

abbrev pub Harmless : Store → Store × Outcome → Type 0
Harmless = Keeps failed

abbrev pub HarmlessReply : Store → Store × Resp → Type 0
HarmlessReply = Keeps is_error

pub done-Harmless : (s : Store) (r : Store × Resp) → HarmlessReply s r → Harmless s (done r)
done-Harmless s (t, r) h = h

pub fail-Harmless : (s : Store) (r : Resp) → Harmless s (fail r s)
fail-Harmless s r h k = refl

-- A reply that is no error.
pub reply-Keeps {ℓ} :
    {R : Type ℓ} (bad : R → Bool) (s : Store) (r : Store × R) → bad r.1 ≡ false → Keeps bad s r
reply-Keeps bad s r no_error h k = absurd (ground arith)

-- A branch of a test.
pub if-Harmless :
    (s : Store) (b : Bool) (o p : Store × Outcome)
    → Harmless s o
    → Harmless s p
    → Harmless s (if b then o else p)
if-Harmless s true o p ho hp = ho
if-Harmless s false o p ho hp = hp

-- A case of an option.
pub option-Harmless {ℓ} :
    {A : Type ℓ} (s : Store) (o : Option A) (p : Store × Outcome) (f : A → Store × Outcome)
    → Harmless s p
    → ((a : A) → Harmless s (f a))
    → Harmless s (elim o [ none ↦ p | some a ↦ f a ])
option-Harmless s none p f hp hf = hp
option-Harmless s (some a) p f hp hf = hf a

-- What `live` finds: nothing, or an entry in a store that stays.
pub live-cases :
    (now : ℕ) (key : String) (s : Store)
    → ((live now key s).1 ≡ none) ⊎ ((e : Entry) × (live now key s ≡ (s, some e)))
live-cases now key s = elim (Option-cases (Map.get key s)) [
  | inl found ↦ inl (ap (λ r. r.1) (live-absent now key s found))
  | inr (e, found) ↦ elim (Bool-cases (is_expired now e)) [
    | inl dead ↦ inl (ap (λ r. r.1) (live-expired now key s e found dead))
    | inr alive ↦ inr (e, live-alive now key s e found alive)
  ]
]

-- A command that looks its key up, and what it does where there is nothing.
found-Keeps {ℓ} :
    {R : Type ℓ} (bad : R → Bool) (s : Store) (r : Store × Option Entry)
    (absent : Store → Store × R) (f : Entry → Store → Store × R)
    → (r.1 ≡ none) ⊎ ((e : Entry) × (r ≡ (s, some e)))
    → ((t : Store) → bad (absent t).1 ≡ false)
    → ((e : Entry) → Keeps bad s (f e s))
    → Keeps bad s (elim r.1 [ none ↦ absent r.0 | some e ↦ f e r.0 ])
found-Keeps bad s r absent f (inl nothing) no_error h =
    rw (nothing) (λ b. absurd (ground (arith, no_error r.0)))
found-Keeps bad s r absent f (inr (d, there)) no_error h = rw (there, there) (h d)

pub live-Keeps {ℓ} :
    {R : Type ℓ} (bad : R → Bool) (now : ℕ) (key : String) (s : Store) (absent : Store → Store × R)
    (f : Entry → Store → Store × R)
    → ((t : Store) → bad (absent t).1 ≡ false)
    → ((e : Entry) → Keeps bad s (f e s))
    → Keeps bad s (elim (live now key s).1 [
      | none ↦ absent (live now key s).0
      | some e ↦ f e (live now key s).0
    ])
live-Keeps bad now key s absent f no_error h =
    found-Keeps bad s (live now key s) absent f (live-cases now key s) no_error h

-- A write of what stands there.
pub rewrite-Harmless :
    (key : String) (e : Entry) (s : Store) (r : Resp)
    → Map.get key s ≡ some e
    → HarmlessReply s (Map.insert key e s, r)
rewrite-Harmless key e s r found h k = get-insert_known key k e s found

pub one_arg-Harmless :
    (name : String) (rest : List String) (f : String → Store → Store × Outcome) (s : Store)
    → ((a : String) → Harmless s (f a s))
    → Harmless s (one_arg name rest f s)
one_arg-Harmless name [] f s h = λ e k. refl
one_arg-Harmless name (a ∷ []) f s h = h a
one_arg-Harmless name (a ∷ b ∷ rest) f s h = λ e k. refl

pub two_args-Harmless :
    (name : String) (rest : List String) (f : String → String → Store → Store × Outcome) (s : Store)
    → ((a b : String) → Harmless s (f a b s))
    → Harmless s (two_args name rest f s)
two_args-Harmless name [] f s h = λ e k. refl
two_args-Harmless name (a ∷ []) f s h = λ e k. refl
two_args-Harmless name (a ∷ b ∷ []) f s h = h a b
two_args-Harmless name (a ∷ b ∷ c ∷ rest) f s h = λ e k. refl

pub three_args-Harmless :
    (name : String) (rest : List String) (f : String → String → String → Store → Store × Outcome)
    (s : Store)
    → ((a b c : String) → Harmless s (f a b c s))
    → Harmless s (three_args name rest f s)
three_args-Harmless name [] f s h = λ e k. refl
three_args-Harmless name (a ∷ []) f s h = λ e k. refl
three_args-Harmless name (a ∷ b ∷ []) f s h = λ e k. refl
three_args-Harmless name (a ∷ b ∷ c ∷ []) f s h = h a b c
three_args-Harmless name (a ∷ b ∷ c ∷ d ∷ rest) f s h = λ e k. refl

pub some_args-Harmless :
    (name : String) (rest : List String) (f : List String → Store → Store × Outcome) (s : Store)
    → ((args : List String) → Harmless s (f args s))
    → Harmless s (some_args name rest f s)
some_args-Harmless name [] f s h = λ e k. refl
some_args-Harmless name (a ∷ rest) f s h = h (a ∷ rest)

pub key_and_args-Harmless :
    (name : String) (rest : List String) (f : String → List String → Store → Store × Outcome)
    (s : Store)
    → ((key : String) (args : List String) → Harmless s (f key args s))
    → Harmless s (key_and_args name rest f s)
key_and_args-Harmless name [] f s h = λ e k. refl
key_and_args-Harmless name (k ∷ []) f s h = λ e k. refl
key_and_args-Harmless name (k ∷ a ∷ rest) f s h = h k (a ∷ rest)

pub with_i64-Harmless :
    (a : String) (f : ℤ → Store → Store × Outcome) (s : Store)
    → ((n : ℤ) → Harmless s (f n s))
    → Harmless s (with_i64 a f s)
with_i64-Harmless a f s h =
    option-Harmless s (parse_i64 a) (fail not_integer s) (λ n. f n s) (λ e k. refl) h
