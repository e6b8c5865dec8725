-- ===== src/MiniRedis/Counters.antt =====
-- Counters add up, and the texts they leave are the numerals of their sums.
use bridge_framework.Base.{
  ℕ, ◌≡◌, refl, ap, ◌∙◌, true, false, String, none, some, arith, string_eq, ℤ, pos, negsuc, ◌+ℤ◌,
  fits_i64, wrap_i64, parse_i64, integer_text, parse_i64-integer_text,
}
use bridge_framework.Base.Map
use bridge_framework.Base.Map.{get-insert_self}
use bridge_framework.MiniRedis.{Entry, Store, string, integer, lasting, bulk, is_expired, read}
use bridge_framework.MiniRedis.Live.{live-absent, live-alive, live-expired}
use bridge_framework.MiniRedis.Texts.{get, incr_by, add_to, add_to_val}

-- The number that a key counts: 0 where it is absent, and else its text's.
pub data Counts (now : ℕ) (key : String) (s : Store) : ℤ → Type 0 where
  absent : Map.get key s ≡ none → Counts now key s (pos 0)
  expired :
      {e : Entry} → Map.get key s ≡ some e → is_expired now e ≡ true → Counts now key s (pos 0)
  number :
      {e : Entry} {v : String} {n : ℤ}
      → Map.get key s ≡ some e
      → is_expired now e ≡ false
      → e.val ≡ string v
      → parse_i64 v ≡ some n
      → Counts now key s n

-- A sum in range does not wrap.
wrap_i64-within : (a : ℤ) → fits_i64 a ≡ true → wrap_i64 a ≡ a
wrap_i64-within (pos n) h = ground arith
wrap_i64-within (negsuc n) h = ground arith

-- What a counter leaves.
abbrev pub counted : String → ℤ → Store → Store
counted key n s = Map.insert key (lasting (string (integer_text n))) s

counted-Counts :
    (now : ℕ) (key : String) (s : Store) (n : ℤ)
    → fits_i64 n ≡ true
    → Counts now key (counted key n s) n
counted-Counts now key s n fits =
    number (get-insert_self key (lasting (string (integer_text n))) s) refl refl
      (parse_i64-integer_text n fits)

add_to-within :
    (key : String) (n by : ℤ) (s : Store)
    → fits_i64 (n +ℤ by) ≡ true
    → add_to key n by s ≡ (counted key (n +ℤ by) s, integer (n +ℤ by))
add_to-within key n by s fits =
    ap (λ m. (counted key m s, integer m)) (wrap_i64-within (n +ℤ by) fits)

-- The reply of a counter, and the store that it leaves.
incr_by-counted :
    (now : ℕ) (key : String) (by : ℤ) (s : Store) (n : ℤ)
    → Counts now key s n
    → fits_i64 (n +ℤ by) ≡ true
    → (t : Store) × (incr_by now key by s ≡ (counted key (n +ℤ by) t, integer (n +ℤ by)))
unfolding incr_by
incr_by-counted now key by s n (absent found) fits =
    let nothing = live-absent now key s found in
    (s, rw (incr_by, nothing, nothing) (add_to-within key n by s fits))
incr_by-counted now key by s n (expired {e = e} found dead) fits =
    let nothing = live-expired now key s e found dead in
    (
      Map.remove key s,
      rw (incr_by, nothing, nothing) (add_to-within key n by (Map.remove key s) fits),
    )
incr_by-counted now key by s n (number {e = e} found alive text read_back) fits =
    let there = live-alive now key s e found alive in
    (s, rw (incr_by, there, text, add_to_val, read_back, there) (add_to-within key n by s fits))

-- Two additions to a counter, at any two readings of the clock, leave the sum: while both sums are
-- in the range of `i64` the second reply is the sum, and GET then replies its numeral.
pub incr_by-incr_by :
    (now later : ℕ) (key : String) (by more : ℤ) (s : Store) (n : ℤ)
    → Counts now key s n
    → fits_i64 (n +ℤ by) ≡ true
    → fits_i64 (n +ℤ by +ℤ more) ≡ true
    → let twice = incr_by later key more (incr_by now key by s).0 in
      (twice.1 ≡ integer (n +ℤ by +ℤ more))
      × ((get later key twice.0).1 ≡ bulk (integer_text (n +ℤ by +ℤ more)))
unfolding get
incr_by-incr_by now later key by more s n counts fits also =
    let once = incr_by-counted now key by s n counts fits in
    let again =
      incr_by-counted later key more (counted key (n +ℤ by) once.0) (n +ℤ by)
        (counted-Counts later key once.0 (n +ℤ by) fits) also in
    let twice = ap (λ r. incr_by later key more r.0) once.1 ∙ again.1 in
    let e : Entry = lasting (string (integer_text (n +ℤ by +ℤ more))) in
    let there =
      live-alive later key (counted key (n +ℤ by +ℤ more) again.0) e (get-insert_self key e again.0)
        refl in
    (ap (λ r. r.1) twice, ap (λ r. (get later key r.0).1) twice ∙ rw (get, read, there) refl)
