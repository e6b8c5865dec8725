-- ===== src/MiniRedis/Tests.antt =====
-- The theorems on the embedded Redis at concrete stores.
use bridge_framework.Base.{
  ◌≡◌, ◌↔◌, refl, true, String, some, List, [], ◌∷◌, arith, string_eq, pos, negsuc, parse_i64,
}
use bridge_framework.Base.Map
use bridge_framework.MiniRedis.{Store, Entry, panicked, list, string, lasting}
use bridge_framework.MiniRedis.Lists.{lrange}
use bridge_framework.MiniRedis.Pushes.{lrange-panicked_iff, ends_before}
use bridge_framework.MiniRedis.Counters.{Counts, number}
use bridge_framework.MiniRedis.Dispatch.{dispatch}
use bridge_framework.MiniRedis.Errors.Commands.{dispatch-error}

abbrev queue : List String
queue = "a" ∷ "b" ∷ []

abbrev old : Entry
old = record { val = list queue; expires_at = some 50 }

abbrev stored : Store
stored = ("jobs", lasting (list queue)) ∷ ("old", old) ∷ ("hits", lasting (string "40")) ∷ []

lrange-panicked_iff_example :
    ((lrange 7 "jobs" (pos 0) (negsuc 2) stored).1 ≡ panicked) ↔ (ends_before (negsuc 2) 2 ≡ true)
unfolding Map.get
lrange-panicked_iff_example =
    lrange-panicked_iff 7 "jobs" (negsuc 2) stored (lasting (list queue)) queue refl refl refl
      (ground arith) (ground arith)

hits-Counts : Counts 7 "hits" stored (pos 40)
unfolding Map.get parse_i64
hits-Counts = number {e = lasting (string "40")} {v = "40"} refl refl refl refl

dispatch-error_example :
    Map.get "jobs" (dispatch (λ i. i) ("INCR" ∷ "jobs" ∷ []) stored).0 ≡ Map.get "jobs" stored
unfolding dispatch Map.get
dispatch-error_example = dispatch-error (λ i. i) ("INCR" ∷ "jobs" ∷ []) stored "jobs" refl
