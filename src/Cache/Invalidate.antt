-- ===== src/Cache/Invalidate.antt =====
-- What the invalidations remove.
use bridge_framework.Base.{
  ℕ, ◌+◌, ◌≡◌, refl, ◌∙◌, Bool, true, false, not, ◌&&◌, String, Option, none, some, List, [], ◌∷◌,
  arith, if◌then◌else◌, Bool-cases, Option-cases, inl, inr, All, All-imp, contains,
  contains-filterb, contains-keys, string_eq, ◌==◌, ==_iff, filterb, countb, unwrap_or, map_some,
  and_then,
}
use bridge_framework.Base.Map
use bridge_framework.Base.Map.{Map, Distinct, get-insert, get-remove, remove-Distinct}
use bridge_framework.Glob.Backtrack.{glob_match}
use bridge_framework.Cache.{
  Entry, CacheRegistry, is_expired, sweep, invalidate_pattern, keyspace_or_default,
}
use bridge_framework.Cache.Recency.{IsCoherent}
use bridge_framework.Cache.Evict.{All-IsKey}

get-sweep :
    (now : ℕ) (key : String) (dead : List String) (m : Map String Entry) (n : ℕ)
    → Map.get key (sweep now dead m n).0 ≡ (if contains key dead then none else Map.get key m)
unfolding sweep
get-sweep now key [] m n = refl
get-sweep now key (k ∷ dead) m n =
    let live = unwrap_or false (map_some (λ e. not (is_expired now e)) (Map.get k m)) in
    get-sweep now key dead (Map.remove k m) (if live then n + 1 else n)
    ∙ ground (arith, get-remove key k m, ==_iff k key)

-- The entry of a key, live or not.
abbrev pub entry : String → String → CacheRegistry → Option Entry
entry ks key r = and_then (Map.get ks r.keyspaces) (λ s. Map.get key s.map)

-- To invalidate a pattern removes exactly the keys of the keyspace that match it; every other entry
-- of it, and every other keyspace, stays as it was.
pub entry-invalidate_pattern :
    (now : ℕ) (ks pattern : String) (r : CacheRegistry) (other key : String)
    → entry other key (invalidate_pattern now ks pattern r).0
      ≡ (if ks == other && glob_match pattern key then none else entry other key r)
unfolding invalidate_pattern
entry-invalidate_pattern now ks pattern r other key = elim (Option-cases (Map.get ks r.keyspaces)) [
  | inl absent ↦
      rw (absent, invalidate_pattern)
        (elim (Bool-cases (ks == other)) [
          | inl same ↦
              let none_there : Map.get other r.keyspaces ≡ none = ground (arith, ==_iff ks other) in
              rw none_there (ground arith)
          | inr different ↦ ground arith
        ])
  | inr (s, found) ↦
      let dead = filterb (glob_match pattern) (Map.keys s.map) in
      let swept = sweep now dead s.map 0 in
      let lookup = get-insert other ks (record s { map = swept.0 }) r.keyspaces in
      let swept_key : Map.get key swept.0
          ≡ (if glob_match pattern key then none else Map.get key s.map) =
        ground (
          arith,
          get-sweep now key dead s.map 0,
          contains-filterb (glob_match pattern) key (Map.keys s.map),
          contains-keys key s.map,
        ) in
      elim (Bool-cases (ks == other)) [
        | inl same ↦
            let there : Map.get other r.keyspaces ≡ some s = ground (arith, ==_iff ks other) in
            let now_there : Map.get other (Map.insert ks (record s { map = swept.0 }) r.keyspaces)
                ≡ some (record s { map = swept.0 }) =
              ground arith in
            rw (found, invalidate_pattern, now_there, there, same) swept_key
        | inr different ↦
            let apart : Map.get other (Map.insert ks (record s { map = swept.0 }) r.keyspaces)
                ≡ Map.get other r.keyspaces =
              ground arith in
            rw (found, invalidate_pattern, apart, different) refl
      ]
]

-- The number of live entries whose key the list names.
abbrev live_among : ℕ → List String → Map String Entry → ℕ
live_among now ks m = countb (λ e. contains e.0 ks && not (is_expired now e.1)) m

abbrev is_live_key : ℕ → String → Map String Entry → Bool
is_live_key now k m = unwrap_or false (map_some (λ e. not (is_expired now e)) (Map.get k m))

live_among-cons :
    (now : ℕ) (k : String) (dead : List String) (m : Map String Entry)
    → Distinct m
    → live_among now (k ∷ dead) m
      ≡ (if is_live_key now k m then 1 else 0) + live_among now dead (Map.remove k m)
unfolding Map.get Map.remove
live_among-cons now k dead [] d = refl
live_among-cons now k dead ((j, x) ∷ m) d =
    ground (arith, ==_iff k j, ==_iff j k, live_among-cons now k dead m d.1)

live_among-nil : (now : ℕ) (m : Map String Entry) → live_among now [] m ≡ 0
live_among-nil now [] = refl
live_among-nil now (e ∷ m) = ground (arith, live_among-nil now m)

count-sweep :
    (now : ℕ) (dead : List String) (m : Map String Entry) (n : ℕ)
    → Distinct m
    → (sweep now dead m n).1 ≡ n + live_among now dead m
unfolding sweep
count-sweep now [] m n d = omega (arith, live_among-nil now m)
count-sweep now (k ∷ dead) m n d = elim (Bool-cases (is_live_key now k m)) [
  | inl live ↦
      rw (live, sweep)
        (count-sweep now dead (Map.remove k m) (n + 1) (remove-Distinct k m d)
          ∙ ground (arith, live_among-cons now k dead m d))
  | inr gone ↦
      rw (gone, sweep)
        (count-sweep now dead (Map.remove k m) n (remove-Distinct k m d)
          ∙ ground (arith, live_among-cons now k dead m d))
]

abbrev pub live_matching : ℕ → String → Map String Entry → ℕ
live_matching now pattern m = countb (λ e. glob_match pattern e.0 && not (is_expired now e.1)) m

live_among-filterb :
    (now : ℕ) (pattern : String) (ks : List String) (m : Map String Entry)
    → All (λ (e : String × Entry). contains e.0 ks ≡ true) m
    → live_among now (filterb (glob_match pattern) ks) m ≡ live_matching now pattern m
live_among-filterb now pattern ks [] h = refl
live_among-filterb now pattern ks (e ∷ m) h =
    ground
      (arith, contains-filterb (glob_match pattern) e.0 ks, live_among-filterb now pattern ks m h.1)

All-keys : (m : Map String Entry) → All (λ (e : String × Entry). contains e.0 (Map.keys m) ≡ true) m
All-keys m =
    All-imp (λ (e : String × Entry). Map.contains_key e.0 m ≡ true)
      (λ (e : String × Entry). contains e.0 (Map.keys m) ≡ true) m (λ e h. contains-keys e.0 m ∙ h)
      (All-IsKey m)

-- In a coherent registry `invalidate_pattern` reports as many entries as were live under a key
-- that matches.
pub count-invalidate_pattern :
    (now : ℕ) (ks pattern : String) {r : CacheRegistry}
    → IsCoherent r
    → (invalidate_pattern now ks pattern r).1
      ≡ live_matching now pattern (keyspace_or_default ks r).map
unfolding invalidate_pattern
count-invalidate_pattern now ks pattern {r} w = elim (Option-cases (Map.get ks r.keyspaces)) [
  | inl absent ↦ rw (absent, invalidate_pattern) refl
  | inr (s, found) ↦
      let dead = filterb (glob_match pattern) (Map.keys s.map) in
      rw (found, invalidate_pattern)
        (omega (
          arith,
          count-sweep now dead s.map 0 (w.spaces.at ks s found).distinct,
          live_among-filterb now pattern (Map.keys s.map) s.map (All-keys s.map),
        ))
]
