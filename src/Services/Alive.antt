-- ===== src/Services/Alive.antt =====
-- Which services a registry lists as alive.
use bridge_framework.Base.{
  ℕ, ◌+◌, ◌≤◌, ◌<◌, ◌≡◌, ◌↔◌, refl, sym, ◌∙◌, true, some, is_some-keep_if, ◌&&◌, String, map, arith,
  if◌then◌else◌, Option-cases, inl, inr, contains, Named, contains-filterb-values, insert-Named,
  remove-Named, update-Named, is_some, keep_if, string_eq, ◌==◌, ==_self, ltb, map_some,
}
use bridge_framework.Base.Map
use bridge_framework.Base.Map.{
  Distinct, insert-Distinct, remove-Distinct, update-Distinct, get-insert, get-remove, get-update,
}
use bridge_framework.Services
use bridge_framework.Services.{
  Service, ServiceRegistry, new, is_alive, refreshed, discover, list_alive, is_registered,
}

pub data Step : ServiceRegistry → ServiceRegistry → Type 0 where
  register : (s : Service) (r : ServiceRegistry) → Step r (Services.register s r)
  deregister : (name : String) (r : ServiceRegistry) → Step r (Services.deregister name r).0
  heartbeat :
      (now : ℕ) (name : String) (r : ServiceRegistry) → Step r (Services.heartbeat now name r).0
  clear : (r : ServiceRegistry) → Step r (Services.clear r)

pub data Reach : ServiceRegistry → Type 0 where
  start : Reach new
  next : {r s : ServiceRegistry} → Reach r → Step r s → Reach s

-- Every service stands under its own name, and no name twice.
pub record IsIndexed (r : ServiceRegistry) : Type 0 where
  pub distinct : Distinct r
  pub named : Named (λ s. s.name) r

Step-IsIndexed : {r s : ServiceRegistry} → Step r s → IsIndexed r → IsIndexed s
unfolding Services.register Services.deregister Services.heartbeat
Step-IsIndexed (register s r) i = record {
  distinct = insert-Distinct s.name s r i.distinct;
  named = insert-Named (λ x. x.name) s r i.named;
}
Step-IsIndexed (deregister name r) i = record {
  distinct = remove-Distinct name r i.distinct;
  named = remove-Named (λ x. x.name) name r i.named;
}
Step-IsIndexed (heartbeat now name r) i = record {
  distinct = update-Distinct name (refreshed now) r i.distinct;
  named = update-Named (λ x. x.name) name (refreshed now) r (λ s. refl) i.named;
}
Step-IsIndexed (clear r) i = record { distinct = tt; named = tt }

Reach-IsIndexed : {r : ServiceRegistry} → Reach r → IsIndexed r
Reach-IsIndexed start = record { distinct = tt; named = tt }
Reach-IsIndexed (next h s) = Step-IsIndexed s (Reach-IsIndexed h)

-- In every registry that any sequence of calls leads to, `list_alive` lists a name exactly when
-- `discover` finds a service under it whose last heartbeat came less than 30 seconds before `now`, or
-- after it.
pub contains-list_alive :
    {r : ServiceRegistry}
    → Reach r
    → (now : ℕ) (name : String)
    → (contains name (map (λ s. s.name) (list_alive now r)) ≡ true)
      ↔ ((s : Service) × (discover name r ≡ some s) × (now < s.last_heartbeat + 30))
unfolding list_alive Services.list_filtered
contains-list_alive {r} h now name =
    let i = Reach-IsIndexed h in
    let listed = contains-filterb-values (λ s. s.name) (is_alive now) name r i.distinct i.named in
    let kept = is_some-keep_if (is_alive now) (discover name r) in
    (
      λ inside. let (s, found, fresh) = kept.0 (sym listed ∙ inside) in (s, found, ground arith),
      λ (s, found, fresh). listed ∙ kept.1 (s, found, ground arith),
    )

-- A heartbeat at `now` reaches a service exactly if it is registered; such a service is then alive
-- until 30 seconds later and no longer. Nothing of it but the time of its heartbeat has changed, and
-- every other service is as it was.
pub discover-heartbeat :
    (now later : ℕ) (name other : String) (r : ServiceRegistry)
    → now ≤ later
    → let after = Services.heartbeat now name r in
      (after.1 ≡ is_registered name r)
      × (is_some (keep_if (is_alive later) (discover name after.0))
          ≡ (is_registered name r && ltb later (now + 30)))
      × (discover other after.0 ≡ (
          if name == other then map_some (refreshed now) (discover other r) else discover other r))
unfolding Services.heartbeat
discover-heartbeat now later name other r h = elim (Option-cases (Map.get name r)) [
  | inl absent ↦ (
    refl,
    ground (arith, get-update name name (refreshed now) r, ==_self name),
    get-update other name (refreshed now) r,
  )
  | inr (s, found) ↦ (
    refl,
    ground (arith, get-update name name (refreshed now) r, ==_self name),
    get-update other name (refreshed now) r,
  )
]
