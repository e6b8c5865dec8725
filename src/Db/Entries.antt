-- ===== src/Db/Entries.antt =====
-- `Entry` of db/src/lib.rs.
use bridge_framework.Base.{
  ℕ, ◌+◌, ◌-◌, Bool, false, String, Option, none, some, ltb, if◌then◌else◌, and_then,
}

pub record Entry : Type 0 where
  pub value : String
  pub expires_at : Option ℕ

abbrev pub new : String → Entry
new value = record { value = value; expires_at = none }

-- The source panics where the sum is past the greatest instant; it is unbounded here.
abbrev pub with_ttl : ℕ → String → ℕ → Entry
with_ttl now value ttl = record { value = value; expires_at = some (now + ttl) }

unfoldable pub is_expired : ℕ → Entry → Bool
is_expired now e = elim (e.expires_at) [ none ↦ false | some deadline ↦ ltb deadline now ]

unfoldable pub remaining_ttl : ℕ → Entry → Option ℕ
remaining_ttl now e =
    and_then e.expires_at (λ deadline. if ltb now deadline then some (deadline - now) else none)
