-- ===== src/MiniRedis/Live.antt =====
-- What `live` finds, by what the store holds.
use bridge_framework.Base.{
  ℕ, ◌≡◌, ◌≤◌, refl, true, false, String, none, some, string_eq, arith, Option-cases,
}
use bridge_framework.Base.Map
use bridge_framework.MiniRedis.{Entry, Store, is_expired, live}

pub live-absent :
    (now : ℕ) (key : String) (s : Store) → Map.get key s ≡ none → live now key s ≡ (s, none)
unfolding live
live-absent now key s found = rw (live, found) refl

pub live-expired :
    (now : ℕ) (key : String) (s : Store) (e : Entry)
    → Map.get key s ≡ some e
    → is_expired now e ≡ true
    → live now key s ≡ (Map.remove key s, none)
unfolding live
live-expired now key s e found dead = rw (live, found, dead) refl

pub live-alive :
    (now : ℕ) (key : String) (s : Store) (e : Entry)
    → Map.get key s ≡ some e
    → is_expired now e ≡ false
    → live now key s ≡ (s, some e)
unfolding live
live-alive now key s e found alive = rw (live, found, alive) refl

-- What has expired stays so.
pub is_expired-later :
    (now later : ℕ) (e : Entry) → now ≤ later → is_expired now e ≡ true → is_expired later e ≡ true
is_expired-later now later e after dead = ground (arith, Option-cases e.expires_at)
