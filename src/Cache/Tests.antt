-- ===== src/Cache/Tests.antt =====
-- Runs of the cache on small inputs.
use Prim.Native.Nat.{◌≤◌}
use bridge_framework.Base.{
  ◌+◌, ◌≡◌, refl, true, none, some, arith, chars, ◌↔◌, if◌then◌else◌, length, string_eq,
}
use bridge_framework.Base.Map
use bridge_framework.Glob.{Matches}
use bridge_framework.Glob.Backtrack
use bridge_framework.Glob.Backtrack.{glob_match}
use bridge_framework.Cache.{
  KeyspaceConfig, CacheRegistry, new, ensure_keyspace, set, get, del, invalidate_pattern, evict,
  sweep, oldest_from, keyspace_or_default,
}
use bridge_framework.Cache.Recency
use bridge_framework.Cache.Recency.{Reach, start, next, Step, IsCoherent}
use bridge_framework.Cache.Evict
use bridge_framework.Cache.Fresh

program : Unit {0}
unfolding ensure_keyspace set get del invalidate_pattern evict sweep oldest_from glob_match Map.get
    Map.insert Map.remove
program = tt

abbrev small : KeyspaceConfig
small = record { max_entries = 2; default_ttl_ms = 0 }

abbrev two : CacheRegistry
two =
    (set 20 "s" "user:2" "b" (some 100)
      (set 10 "s" "user:1" "a" none (ensure_keyspace "s" small new)).0).0

-- The third entry pushes out the one that was used least recently, or one that has expired.
set_run :
    ((get 40 "s" "user:1" (set 30 "s" "job:3" "c" none two).0).1 ≡ none)
    × ((get 40 "s" "user:2" (set 30 "s" "job:3" "c" none two).0).1 ≡ some "b")
    × ((get 140 "s" "user:1" (set 130 "s" "job:3" "c" none two).0).1 ≡ some "a")
    × ((invalidate_pattern 30 "s" "user:*" two).1 ≡ 2)
unfolding program
set_run = (refl, refl, refl, refl)

two-Reach : Reach two
two-Reach =
    next
      (next (next start (Step.ensure_keyspace "s" small new)) (Step.set 10 "s" "user:1" "a" none _))
      (Step.set 20 "s" "user:2" "b" (some 100) _)

backtrack_iff_example :
    (glob_match "us?r:*" "user:12" ≡ true) ↔ Matches (chars "us?r:*") (chars "user:12")
backtrack_iff_example = Backtrack.backtrack_iff "us?r:*" "user:12"

two-IsCoherent : IsCoherent two
two-IsCoherent = Recency.Reach-IsCoherent two-Reach

length-set_example :
    let s = keyspace_or_default "s" two in
    let after = keyspace_or_default "s" (set 30 "s" "job:3" "c" none two).0 in
    (length after.map ≤ s.cfg.max_entries)
    × (length after.map + (set 30 "s" "job:3" "c" none two).1
        ≡ length s.map + (if Map.contains_key "job:3" s.map then 0 else 1))
    × (after.cfg ≡ s.cfg)
length-set_example = Evict.length-set 30 "s" "job:3" "c" none two-IsCoherent

two-has_room : 1 ≤ (keyspace_or_default "s" two).cfg.max_entries
unfolding program
two-has_room = omega arith

get-set_example : (get 40 "s" "job:3" (set 30 "s" "job:3" "c" none two).0).1 ≡ some "c"
unfolding program
get-set_example = Fresh.get-set 30 40 "s" "job:3" "c" none two-IsCoherent two-has_room (omega arith)
