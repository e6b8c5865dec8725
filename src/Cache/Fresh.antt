-- ===== src/Cache/Fresh.antt =====
-- A value that has just been set is found.
use Prim.Native.Nat.{zero, suc}
use bridge_framework.Base.{
  ℕ, ◌+◌, ◌^◌, ◌≤◌, ◌<◌, ◌≡◌, refl, ◌∙◌, Bool, true, false, not, ◌||◌, String, Option, none, some,
  [], ◌∷◌, arith, if◌then◌else◌, Bool-cases, Option-cases, inl, inr, All, All-find_first,
  find_first, anyb, length, string_eq, ◌==◌, ==_self, ==_iff, ltb, leb, unwrap_or, nat_eq,
}
use bridge_framework.Base.Map
use bridge_framework.Base.Map.{Map, Distinct, get-insert, get-remove, remove-Distinct}
use bridge_framework.Cache.{
  Entry, Keyspace, CacheRegistry, evict, victim, stored, oldest_from, access, deadline,
  keyspace_or_default, is_expired, set, get,
}
use bridge_framework.Cache.Recency.{
  IsSpace, IsCoherent, without-IsSpace, stored-IsSpace, keyspace_or_default-IsSpace, All-remove,
}
use bridge_framework.Cache.Evict.{All-victim}

-- Seen from the entry of `key`, set at access number `seq`: it is live, and all others are older.
abbrev Outranked : ℕ → ℕ → String → String × Entry → Type 0
Outranked now seq key e =
    ((e.0 == key) ≡ true → (e.1.last_access ≡ seq) × (is_expired now e.1 ≡ false))
    × ((e.0 == key) ≡ false → e.1.last_access < seq)

oldest_from-le :
    (b : String × Entry) (m : Map String Entry) → (oldest_from b m).1.last_access ≤ b.1.last_access
unfolding oldest_from
oldest_from-le b [] = omega arith
oldest_from-le b (e ∷ m) = elim (Bool-cases (ltb e.1.last_access b.1.last_access)) [
  | inl older ↦ rw (older, oldest_from) (ground (arith, oldest_from-le e m))
  | inr kept ↦ rw (kept, oldest_from) (oldest_from-le b m)
]

abbrev is_other : String → String × Entry → Bool
is_other key e = not (e.0 == key)

oldest_from-older :
    (now seq : ℕ) (key : String) (b : String × Entry) (m : Map String Entry)
    → Outranked now seq key b
    → All (Outranked now seq key) m
    → (is_other key b || anyb (is_other key) m) ≡ true
    → (oldest_from b m).1.last_access < seq
unfolding oldest_from
oldest_from-older now seq key b [] o h other = ground arith
oldest_from-older now seq key b (e ∷ m) o h other =
    elim (Bool-cases (ltb e.1.last_access b.1.last_access)) [
      | inl older ↦ rw (older, oldest_from) (ground (arith, oldest_from-le e m))
      | inr kept ↦
          let still : (is_other key b || anyb (is_other key) m) ≡ true = ground arith in
          rw (kept, oldest_from) (oldest_from-older now seq key b m o h.1 still)
    ]

another :
    (key : String) (x y : String × Entry) (m : Map String Entry)
    → Distinct (x ∷ y ∷ m)
    → (is_other key x || anyb (is_other key) (y ∷ m)) ≡ true
unfolding Map.get
another key x y m d = ground (arith, ==_iff x.0 key, ==_iff y.0 key, ==_iff y.0 x.0)

victim-other :
    (now seq : ℕ) (key : String) (m : Map String Entry) (e : String × Entry)
    → Distinct m
    → 1 < length m
    → All (Outranked now seq key) m
    → victim now m ≡ some e
    → (e.0 == key) ≡ false
victim-other now seq key [] e d long h chosen = absurd (omega arith)
victim-other now seq key (x ∷ []) e d long h chosen = absurd (omega arith)
victim-other now seq key (x ∷ y ∷ m) e d long h chosen =
    let o = All-victim (Outranked now seq key) now (x ∷ y ∷ m) e h chosen in
    elim (Option-cases (find_first (λ (z : String × Entry). is_expired now z.1) (x ∷ y ∷ m))) [
      | inr (z, found) ↦
          let same : z ≡ e = ground arith in
          let dead : is_expired now z.1 ≡ true =
            (All-find_first (Outranked now seq key) (λ (z : String × Entry). is_expired now z.1)
              (x ∷ y ∷ m) z found h).1 in
          let dead' : is_expired now e.1 ≡ true = rw (← same) dead in ground arith
      | inl nobody ↦
          let same : oldest_from x (y ∷ m) ≡ e = ground arith in
          let older = oldest_from-older now seq key x (y ∷ m) h.0 h.1 (another key x y m d) in
          let older' : e.1.last_access < seq = rw (← same) older in ground arith
    ]

-- The loop keeps the entry that was just set, as long as one entry may stay.
evict-keeps :
    (f now n seq : ℕ) (key : String) {s : Keyspace}
    → IsSpace seq s
    → 1 ≤ s.cfg.max_entries
    → All (Outranked now seq key) s.map
    → Map.get key (evict f now s n).0.map ≡ Map.get key s.map
unfolding evict
evict-keeps zero now n seq key i room h = refl
evict-keeps (suc f) now n seq key {s} i room h =
    elim (Bool-cases (ltb s.cfg.max_entries (length s.map))) [
      | inr fits ↦ rw (fits, evict) refl
      | inl full ↦ elim (Option-cases (victim now s.map)) [
        | inl nobody ↦ rw (full, evict, nobody) refl
        | inr (e, chosen) ↦
            let other = victim-other now seq key s.map e i.distinct (ground arith) h chosen in
            rw (full, evict, chosen)
              (evict-keeps f now (n + 1) seq key (without-IsSpace e.0 i) room
                  (All-remove (Outranked now seq key) e.0 s.map h)
                ∙ ground (arith, get-remove key e.0 s.map))
      ]
    ]

others-Outranked :
    (now seq : ℕ) (key : String) (m : Map String Entry)
    → All (λ (x : String × Entry). x.1.last_access ≤ seq) m
    → Map.get key m ≡ none
    → All (Outranked now (seq + 1) key) m
unfolding Map.get
others-Outranked now seq key [] u a = tt
others-Outranked now seq key ((i, y) ∷ m) u a = (
  (λ h. absurd (ground arith), λ _. omega (arith, u.0)),
  others-Outranked now seq key m u.1 (ground arith),
)

stored-Outranked :
    (now seq : ℕ) (key : String) (e : Entry) (m : Map String Entry)
    → All (λ (x : String × Entry). x.1.last_access ≤ seq) m
    → Distinct m
    → is_expired now e ≡ false
    → e.last_access ≡ seq + 1
    → All (Outranked now (seq + 1) key) (Map.insert key e m)
unfolding Map.insert Map.get
stored-Outranked now seq key e [] u d live new =
    ((λ _. (new, live), λ h. absurd (ground (arith, ==_self key))), tt)
stored-Outranked now seq key e ((j, x) ∷ m) u d live new = elim (Bool-cases (j == key)) [
  | inl here ↦
      let absent : Map.get key m ≡ none = ground (arith, ==_iff j key) in
      rw (here, Map.insert)
        (
          (λ _. (new, live), λ h. absurd (ground (arith, ==_self key))),
          others-Outranked now seq key m u.1 absent,
        )
  | inr later ↦
      rw (later, Map.insert)
        (
          (λ h. absurd (ground arith), λ _. omega (arith, u.0)),
          stored-Outranked now seq key e m u.1 d.1 live new,
        )
]

live-deadline :
    (now ttl seq : ℕ) (value : String)
    → now + 1 < 2 ^ 64
    → is_expired now (record { value = value; expires_at = deadline now ttl; last_access = seq })
      ≡ false
live-deadline now ttl seq value h = ground arith

-- In a coherent registry a value that is set in a keyspace with room for at least one entry is
-- there for its whole time to live, whatever had to be evicted for it: the next lookup returns it
-- exactly when its deadline, if it has one, has not come. The clock stays below the last
-- representable millisecond at the time of the `set`.
pub get-set :
    (now later : ℕ) (ks key value : String) (ttl_ms : Option ℕ) {r : CacheRegistry}
    → IsCoherent r
    → 1 ≤ (keyspace_or_default ks r).cfg.max_entries
    → now + 1 < 2 ^ 64
    → let ttl = unwrap_or (keyspace_or_default ks r).cfg.default_ttl_ms ttl_ms in
      (get later ks key (set now ks key value ttl_ms r).0).1 ≡ (elim (deadline now ttl) [
        | none ↦ some value
        | some t ↦ if leb t later then none else some value
      ])
unfolding set get
get-set now later ks key value ttl_ms {r} w room clock =
    let s = keyspace_or_default ks r in
    let i = keyspace_or_default-IsSpace ks w in
    let ttl = unwrap_or s.cfg.default_ttl_ms ttl_ms in
    let e : Entry = record {
      value = value;
      expires_at = deadline now ttl;
      last_access = r.op_seq + 1;
    } in
    let space = stored now (r.op_seq + 1) key value ttl_ms s in
    let end = evict (length space.map) now space 0 in
    let kept =
      evict-keeps (length space.map) now 0 (r.op_seq + 1) key
        (stored-IsSpace now key value ttl_ms i) room
        (stored-Outranked now r.op_seq key e s.map i.used i.distinct
          (live-deadline now ttl (r.op_seq + 1) value clock) refl) in
    let here : Map.get key end.0.map ≡ some e =
      kept ∙ ground (arith, get-insert key key e s.map, ==_self key) in
    let found : Map.get ks (Map.insert ks end.0 r.keyspaces) ≡ some end.0 =
      ground (arith, get-insert ks ks end.0 r.keyspaces, ==_self ks) in
    elim (Option-cases (deadline now ttl)) [
      | inl never ↦ rw (found, get, here, access, never) refl
      | inr (t, at) ↦ elim (Bool-cases (leb t later)) [
        | inl dead ↦ rw (found, get, here, access, at, dead) refl
        | inr live ↦ rw (found, get, here, access, at, live) refl
      ]
    ]
