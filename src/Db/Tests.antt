-- ===== src/Db/Tests.antt =====
-- Runs of the store on small inputs.
use bridge_framework.Base.{
  chars, ◌≡◌, refl, ◌&&◌, true, String, none, some, [], ◌∷◌, string_eq, contains, length,
}
use bridge_framework.Base.Map
use bridge_framework.Glob.{Matches}
use bridge_framework.Glob.Table.{glob_match, glob_match_iff}
use bridge_framework.Db.{
  Db, entry, get, put, put_with_ttl, del, flush_ns, keys, keys_matching, exists, count, expire,
  persist, ttl, purge_expired, stats,
}
use bridge_framework.Db.Entries.{is_expired, remaining_ttl}
use bridge_framework.Db.Transaction
use bridge_framework.Db.Transaction.{commit}
use bridge_framework.Db.WellFormed.{IsWellFormed, Step, Reach, start, next, Reach-IsWellFormed}
use bridge_framework.Db.Reads
use bridge_framework.Db.Commit
use bridge_framework.Db.Commit.{replay}

program : Unit {0}
unfolding get put put_with_ttl del flush_ns keys keys_matching exists count expire persist ttl
    purge_expired stats glob_match commit Transaction.put Transaction.del Map.get Map.insert
    Map.remove Map.update Map.retain is_expired remaining_ttl
program = tt

-- Two entries, the second with a time to live of 60 from time 100 on.
abbrev pub sessions : Db
sessions = put_with_ttl 100 "cache" "hot" "value" 60 (put "sessions" "user:123" "jwt" [])

sessions_run :
    (get 100 "sessions" "user:123" sessions ≡ some "jwt")
    × (get 160 "cache" "hot" sessions ≡ some "value")
    × (get 161 "cache" "hot" sessions ≡ none)
    × (ttl 110 110 "cache" "hot" sessions ≡ some (some 50))
    × (ttl 110 110 "sessions" "user:123" sessions ≡ some none)
    × ((purge_expired 161 sessions).1 ≡ 1)
    × (keys_matching 0 "sessions" "user:*" sessions ≡ "user:123" ∷ [])
unfolding program
sessions_run = (refl, refl, refl, refl, refl, refl, refl)

abbrev pub sessions_reached : Reach sessions
sessions_reached =
    next (next start (Step.put "sessions" "user:123" "jwt" []))
      (Step.put_with_ttl 100 "cache" "hot" "value" 60 (put "sessions" "user:123" "jwt" []))

pub sessions-IsWellFormed : IsWellFormed sessions
sessions-IsWellFormed = Reach-IsWellFormed sessions_reached

glob_match_iff_example :
    (glob_match "user:*" "user:42" ≡ true → Matches (chars "user:*") (chars "user:42"))
    × (Matches (chars "user:*") (chars "user:42") → glob_match "user:*" "user:42" ≡ true)
glob_match_iff_example = glob_match_iff "user:*" "user:42"

keys_matching-exists_example :
    contains "hot" (keys_matching 100 "cache" "h?t" sessions)
    ≡ (exists 100 "cache" "hot" sessions && glob_match "h?t" "hot")
keys_matching-exists_example =
    Reads.keys_matching-exists 100 "cache" "h?t" sessions-IsWellFormed "hot"

abbrev two_puts : Transaction.Transaction
two_puts = Transaction.put "u" "2" "bob" (Transaction.put "u" "1" "alice" Transaction.new)

commit-replay_example :
    ((ns key : String)
      → entry ns key (commit (λ i. i) two_puts sessions).0
        ≡ replay (λ i. i) 0 two_puts.ops ns key (entry ns key sessions))
    × ((commit (λ i. i) two_puts sessions).1 ≡ length two_puts.ops)
commit-replay_example = Commit.commit-replay (λ i. i) two_puts sessions
