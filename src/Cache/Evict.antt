-- ===== src/Cache/Evict.antt =====
-- The eviction loop: whom it picks, how far it goes and what it leaves.
use Prim.Native.Nat.{zero, suc}
use bridge_framework.Base.{
  ℕ, ◌+◌, ◌≤◌, ◌≡◌, refl, ◌∙◌, true, String, Option, none, some, [], ◌∷◌, arith, if◌then◌else◌,
  Bool-cases, Option-cases, inl, inr, All, All-imp, All-find_first, find_first, length, string_eq,
  ==_self, ltb,
}
use bridge_framework.Base.Map
use bridge_framework.Base.Map.{
  Map, Distinct, get-insert, get-remove, remove-Distinct, length-insert, length-remove,
}
use bridge_framework.Cache.{
  Entry, Keyspace, CacheRegistry, evict, victim, stored, oldest_from, keyspace_or_default,
  is_expired, set,
}
use bridge_framework.Cache.Recency.{
  IsSpace, IsCoherent, without-IsSpace, stored-IsSpace, keyspace_or_default-IsSpace,
}

All-oldest_from {ℓ} :
    (P : String × Entry → Type ℓ) (b : String × Entry) (m : Map String Entry)
    → P b
    → All P m
    → P (oldest_from b m)
unfolding oldest_from
All-oldest_from P b [] p h = p
All-oldest_from P b (e ∷ m) p h = elim (Bool-cases (ltb e.1.last_access b.1.last_access)) [
  | inl older ↦ rw (older, oldest_from) (All-oldest_from P e m h.0 h.1)
  | inr kept ↦ rw (kept, oldest_from) (All-oldest_from P b m p h.1)
]

-- What holds of all entries holds of the victim.
pub All-victim {ℓ} :
    (P : String × Entry → Type ℓ) (now : ℕ) (m : Map String Entry) (e : String × Entry)
    → All P m
    → victim now m ≡ some e
    → P e
All-victim P now [] e h chosen = absurd (ground arith)
All-victim P now (x ∷ m) e h chosen =
    elim (Option-cases (find_first (λ (y : String × Entry). is_expired now y.1) (x ∷ m))) [
      | inl nobody ↦
          let same : oldest_from x m ≡ e = ground arith in
          rw (← same) (All-oldest_from P x m h.0 h.1)
      | inr (y, found) ↦
          let same : y ≡ e = ground arith in
          rw (← same)
            (All-find_first P (λ (z : String × Entry). is_expired now z.1) (x ∷ m) y found h).0
    ]

abbrev pub IsKey : Map String Entry → String × Entry → Type 0
IsKey m e = Map.contains_key e.0 m ≡ true

pub All-IsKey : (m : Map String Entry) → All (IsKey m) m
unfolding Map.get
All-IsKey [] = tt
All-IsKey ((k, v) ∷ m) = (
  ground (arith, ==_self k),
  All-imp (IsKey m) (IsKey ((k, v) ∷ m)) m (λ e h. ground arith) (All-IsKey m),
)

victim-none : (now : ℕ) (m : Map String Entry) → victim now m ≡ none → length m ≡ 0
victim-none now [] h = refl
victim-none now (x ∷ m) h =
    absurd (elim (Option-cases (find_first (λ (y : String × Entry). is_expired now y.1) (x ∷ m))) [
      | inl nobody ↦ ground arith
      | inr (y, found) ↦ ground arith
    ])

-- With fuel for every entry the loop ends within the capacity, each entry that left was counted, and
-- the configuration is the same.
pub evict_lem :
    (f now n : ℕ) {seq : ℕ} {s : Keyspace}
    → IsSpace seq s
    → length s.map ≤ f
    → (length (evict f now s n).0.map ≤ s.cfg.max_entries)
      × (length (evict f now s n).0.map + (evict f now s n).1 ≡ length s.map + n)
      × ((evict f now s n).0.cfg ≡ s.cfg)
unfolding evict
evict_lem zero now n i h = (omega arith, refl, refl)
evict_lem (suc f) now n {seq} {s} i h = elim (Bool-cases (ltb s.cfg.max_entries (length s.map))) [
  | inr fits ↦ rw (fits, evict) (ground arith, refl, refl)
  | inl full ↦ elim (Option-cases (victim now s.map)) [
    | inl nobody ↦ absurd (ground (arith, victim-none now s.map nobody))
    | inr (e, chosen) ↦
        let present = All-victim (IsKey s.map) now s.map e (All-IsKey s.map) chosen in
        let shorter : length (Map.remove e.0 s.map) + 1 ≡ length s.map =
          ground (arith, length-remove e.0 s.map i.distinct) in
        let rest = evict_lem f now (n + 1) (without-IsSpace e.0 i) (omega arith) in
        rw (full, evict, chosen) (rest.0, omega (arith, rest.1), rest.2)
  ]
]

-- In a coherent registry a `set` leaves no more entries in its keyspace than the capacity, every
-- entry that is gone was counted as evicted, and the configuration is the same.
pub length-set :
    (now : ℕ) (ks key value : String) (ttl_ms : Option ℕ) {r : CacheRegistry}
    → IsCoherent r
    → let s = keyspace_or_default ks r in
      let after = keyspace_or_default ks (set now ks key value ttl_ms r).0 in
      (length after.map ≤ s.cfg.max_entries)
      × (length after.map + (set now ks key value ttl_ms r).1
          ≡ length s.map + (if Map.contains_key key s.map then 0 else 1))
      × (after.cfg ≡ s.cfg)
unfolding set
length-set now ks key value ttl_ms {r} w =
    let s = keyspace_or_default ks r in
    let i = keyspace_or_default-IsSpace ks w in
    let space = stored now (r.op_seq + 1) key value ttl_ms s in
    let end = evict (length space.map) now space 0 in
    let lem =
      evict_lem (length space.map) now 0 (stored-IsSpace now key value ttl_ms i) (omega arith) in
    let found : Map.get ks (Map.insert ks end.0 r.keyspaces) ≡ some end.0 =
      ground (arith, get-insert ks ks end.0 r.keyspaces, ==_self ks) in
    rw found (lem.0, lem.1 ∙ omega (arith, length-insert key _ s.map), lem.2)
