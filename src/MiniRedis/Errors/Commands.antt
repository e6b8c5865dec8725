-- ===== src/MiniRedis/Errors/Commands.antt =====
-- No command changes the store where it replies an error.
use bridge_framework.Base.{
  ℕ, ◌≡◌, refl, true, false, String, Option, none, some, List, [], ◌∷◌, string_eq, arith,
  Bool-cases, pos, negsuc, negate, wrap_i64, unwrap_or, map, chars, ◌==◌, nat_eq, list_eq, Result,
  ok, err,
}
use bridge_framework.Base.Map
use bridge_framework.Base.Map.{Map}
use bridge_framework.MiniRedis.{Resp, Store, error, integer, array, no_resps, null, int, bulk}
use bridge_framework.MiniRedis.Texts
use bridge_framework.MiniRedis.Lists
use bridge_framework.MiniRedis.Hashes
use bridge_framework.MiniRedis.Dispatch.{
  run, run_texts, run_keys, run_counters, run_lists, run_hashes, dispatch, done, fail, ping, first,
  run_get, run_set, run_setnx, run_mget, run_hset, run_expire, with_i64, pair_up, set_options,
  parse_u64, upper, not_integer,
}
use bridge_framework.MiniRedis.Errors.{
  is_error, failed, Harmless, done-Harmless, if-Harmless, option-Harmless, reply-Keeps,
  one_arg-Harmless, two_args-Harmless, three_args-Harmless, some_args-Harmless,
  key_and_args-Harmless, with_i64-Harmless,
}
use bridge_framework.MiniRedis.Errors.Operations.{
  read-Harmless, incr_by-Harmless, setnx-no_error, expire-no_error, del_from-no_error,
  mset-no_error, exists_from-no_error, push_with-Harmless, write_hash-Harmless, hdel-Harmless,
  lrange-Harmless,
}

-- An operation whose reply is no error.
fine-Harmless : (s : Store) (r : Store × Resp) → is_error r.1 ≡ false → Harmless s (done r)
fine-Harmless s r no_error = done-Harmless s r (reply-Keeps is_error s r no_error)

ping-Harmless : (rest : List String) (s : Store) → Harmless s (ping rest s)
ping-Harmless [] s = λ h k. refl
ping-Harmless (m ∷ rest) s = λ h k. refl

run_get-Harmless : (now : ℕ) (rest : List String) (s : Store) → Harmless s (run_get now rest s)
unfolding Texts.get
run_get-Harmless now [] s = λ h k. refl
run_get-Harmless now (key ∷ rest) s =
    done-Harmless s (Texts.get now key s) (read-Harmless now key null Texts.text_reply s refl)

run_setnx-Harmless : (now : ℕ) (rest : List String) (s : Store) → Harmless s (run_setnx now rest s)
run_setnx-Harmless now [] s = λ h k. refl
run_setnx-Harmless now (key ∷ []) s = λ h k. refl
run_setnx-Harmless now (key ∷ v ∷ rest) s =
    fine-Harmless s (Texts.setnx now key v s) (setnx-no_error now key v s)

set-Harmless :
    (now : ℕ) (key v : String) (s : Store) (o : Result Resp (Option ℕ))
    → Harmless s (elim o [ err r ↦ fail r s | ok ttl ↦ done (Texts.set now key v ttl s) ])
unfolding Texts.set
set-Harmless now key v s (err r) = λ h k. refl
set-Harmless now key v s (ok ttl) = fine-Harmless s (Texts.set now key v ttl s) refl

run_set-Harmless :
    (now : ℕ) (name : String) (rest : List String) (s : Store)
    → Harmless s (run_set now name rest s)
run_set-Harmless now name [] s = λ h k. refl
run_set-Harmless now name (key ∷ []) s = λ h k. refl
run_set-Harmless now name (key ∷ v ∷ options) s =
    set-Harmless now key v s (set_options options none)

mset-Harmless :
    (s : Store) (pairs : Option (List (String × String)))
    → Harmless s (elim pairs [
      | some (p ∷ ps) ↦ done (Texts.mset (p ∷ ps) s)
      | _ ↦ fail (error "ERR wrong number of arguments for MSET") s
    ])
mset-Harmless s none = λ h k. refl
mset-Harmless s (some []) = λ h k. refl
mset-Harmless s (some (p ∷ ps)) = fine-Harmless s (Texts.mset (p ∷ ps) s) (mset-no_error (p ∷ ps) s)

run_hset-Harmless :
    (now : ℕ) (name : String) (rest : List String) (s : Store)
    → Harmless s (run_hset now name rest s)
unfolding Hashes.hset
run_hset-Harmless now name [] s = λ h k. refl
run_hset-Harmless now name (key ∷ []) s = λ h k. refl
run_hset-Harmless now name (key ∷ a ∷ []) s = λ h k. refl
run_hset-Harmless now name (key ∷ a ∷ b ∷ rest) s =
    option-Harmless s (pair_up (a ∷ b ∷ rest))
      (fail (error "ERR wrong number of arguments for 'hset' command") s)
      (λ pairs. done (Hashes.hset now key pairs s)) (λ h k. refl)
      (λ pairs.
        done-Harmless s (Hashes.hset now key pairs s) (write_hash-Harmless now key _ s (λ h. refl)))

run_expire-Harmless :
    (now later : ℕ) (key secs : String) (s : Store) → Harmless s (run_expire now later key secs s)
run_expire-Harmless now later key secs s =
    option-Harmless s (parse_u64 secs) (fail not_integer s)
      (λ n. done (Texts.expire now later key n s)) (λ h k. refl)
      (λ n. fine-Harmless s (Texts.expire now later key n s) (expire-no_error now later key n s))

run_hashes-Harmless :
    (clock : ℕ → ℕ) (cmd : List ℕ) (name : String) (rest : List String) (s : Store)
    → Harmless s (run_hashes clock cmd name rest s)
unfolding run_hashes Hashes.hsetnx Hashes.hget Hashes.hmget Hashes.hgetall Hashes.hlen
    Hashes.hexists Hashes.hkeys Hashes.hvals Hashes.hincrby
run_hashes-Harmless clock cmd name rest s =
    let now = clock 0 in
    if-Harmless s (cmd == chars "HSET") _ _ (run_hset-Harmless now name rest s) (
      if-Harmless s (cmd == chars "HSETNX") _ _
        (three_args-Harmless name rest _ s (λ a b c.
          done-Harmless s (Hashes.hsetnx now a b c s) (
            write_hash-Harmless now a _ s
              (λ h. ground (arith, Bool-cases (Map.contains_key b h))))))
        (if-Harmless s (cmd == chars "HGET") _ _
          (two_args-Harmless name rest _ s
            (λ a b. done-Harmless s (Hashes.hget now a b s) (read-Harmless now a null _ s refl)))
          (if-Harmless s (cmd == chars "HMGET") _ _
            (key_and_args-Harmless name rest _ s
              (λ a bs. done-Harmless s (Hashes.hmget now a bs s) (read-Harmless now a _ _ s refl)))
            (if-Harmless s (cmd == chars "HGETALL") _ _
              (one_arg-Harmless name rest _ s (λ a.
                done-Harmless s (Hashes.hgetall now a s)
                  (read-Harmless now a (array no_resps) _ s refl)))
              (if-Harmless s (cmd == chars "HDEL") _ _
                (key_and_args-Harmless name rest _ s
                  (λ a bs. done-Harmless s (Hashes.hdel now a bs s) (hdel-Harmless now a bs s)))
                (if-Harmless s (cmd == chars "HLEN") _ _
                  (one_arg-Harmless name rest _ s (λ a.
                    done-Harmless s (Hashes.hlen now a s) (read-Harmless now a (int 0) _ s refl)))
                  (if-Harmless s (cmd == chars "HEXISTS") _ _
                    (two_args-Harmless name rest _ s (λ a b.
                      done-Harmless s (Hashes.hexists now a b s)
                        (read-Harmless now a (int 0) _ s refl)))
                    (if-Harmless s (cmd == chars "HKEYS") _ _
                      (one_arg-Harmless name rest _ s (λ a.
                        done-Harmless s (Hashes.hkeys now a s)
                          (read-Harmless now a (array no_resps) _ s refl)))
                      (if-Harmless s (cmd == chars "HVALS") _ _
                        (one_arg-Harmless name rest _ s (λ a.
                          done-Harmless s (Hashes.hvals now a s)
                            (read-Harmless now a (array no_resps) _ s refl)))
                        (if-Harmless s (cmd == chars "HINCRBY") _ _
                          (three_args-Harmless name rest _ s (λ a b c.
                            with_i64-Harmless c (λ n t. done (Hashes.hincrby now a b n t)) s
                              (λ n.
                                done-Harmless s (Hashes.hincrby now a b n s)
                                  (write_hash-Harmless now a _ s (λ h. refl)))))
                          (λ h k. refl)))))))))))

run_lists-Harmless :
    (clock : ℕ → ℕ) (cmd : List ℕ) (name : String) (rest : List String) (s : Store)
    → Harmless s (run_lists clock cmd name rest s)
unfolding run_lists Lists.lpush Lists.rpush Lists.llen Lists.lindex
run_lists-Harmless clock cmd name rest s =
    let now = clock 0 in
    if-Harmless s (cmd == chars "LPUSH") _ _
      (key_and_args-Harmless name rest _ s
        (λ a bs. done-Harmless s (Lists.lpush a bs s) (push_with-Harmless _ a s)))
      (if-Harmless s (cmd == chars "RPUSH") _ _
        (key_and_args-Harmless name rest _ s
          (λ a bs. done-Harmless s (Lists.rpush a bs s) (push_with-Harmless _ a s)))
        (if-Harmless s (cmd == chars "LRANGE") _ _
          (three_args-Harmless name rest _ s (λ a b c.
            with_i64-Harmless b (λ m. with_i64 c (Lists.lrange now a m)) s
              (λ m.
                with_i64-Harmless c (Lists.lrange now a m) s (λ n. lrange-Harmless now a m n s))))
          (if-Harmless s (cmd == chars "LLEN") _ _
            (one_arg-Harmless name rest _ s
              (λ a. done-Harmless s (Lists.llen now a s) (read-Harmless now a (int 0) _ s refl)))
            (if-Harmless s (cmd == chars "LINDEX") _ _
              (two_args-Harmless name rest _ s (λ a b.
                with_i64-Harmless b (λ n t. done (Lists.lindex now a n t)) s
                  (λ n.
                    done-Harmless s (Lists.lindex now a n s) (read-Harmless now a null _ s refl))))
              (run_hashes-Harmless clock cmd name rest s)))))

run_counters-Harmless :
    (clock : ℕ → ℕ) (cmd : List ℕ) (name : String) (rest : List String) (s : Store)
    → Harmless s (run_counters clock cmd name rest s)
unfolding run_counters
run_counters-Harmless clock cmd name rest s =
    let now = clock 0 in
    if-Harmless s (cmd == chars "INCR") _ _
      (one_arg-Harmless name rest _ s
        (λ a. done-Harmless s (Texts.incr_by now a (pos 1) s) (incr_by-Harmless now a (pos 1) s)))
      (if-Harmless s (cmd == chars "DECR") _ _
        (one_arg-Harmless name rest _ s (λ a.
          done-Harmless s (Texts.incr_by now a (negsuc 0) s) (incr_by-Harmless now a (negsuc 0) s)))
        (if-Harmless s (cmd == chars "INCRBY") _ _
          (two_args-Harmless name rest _ s (λ a b.
            with_i64-Harmless b (λ n t. done (Texts.incr_by now a n t)) s
              (λ n. done-Harmless s (Texts.incr_by now a n s) (incr_by-Harmless now a n s))))
          (if-Harmless s (cmd == chars "DECRBY") _ _
            (two_args-Harmless name rest _ s (λ a b.
              with_i64-Harmless b (λ n t. done (Texts.incr_by now a (wrap_i64 (negate n)) t)) s
                (λ n.
                  done-Harmless s (Texts.incr_by now a (wrap_i64 (negate n)) s)
                    (incr_by-Harmless now a (wrap_i64 (negate n)) s))))
            (run_lists-Harmless clock cmd name rest s))))

run_keys-Harmless :
    (clock : ℕ → ℕ) (cmd : List ℕ) (name : String) (rest : List String) (s : Store)
    → Harmless s (run_keys clock cmd name rest s)
unfolding run_keys Texts.ttl
run_keys-Harmless clock cmd name rest s =
    let now = clock 0 in
    let later = clock 1 in
    if-Harmless s (cmd == chars "EXPIRE") _ _
      (two_args-Harmless name rest _ s (λ a b. run_expire-Harmless now later a b s))
      (if-Harmless s (cmd == chars "TTL") _ _
        (one_arg-Harmless name rest _ s (λ a.
          done-Harmless s (Texts.ttl now later a s)
            (read-Harmless now a (integer (negsuc 1)) _ s refl)))
        (run_counters-Harmless clock cmd name rest s))

run_texts-Harmless :
    (clock : ℕ → ℕ) (cmd : List ℕ) (name : String) (rest : List String) (s : Store)
    → Harmless s (run_texts clock cmd name rest s)
unfolding run_texts
run_texts-Harmless clock cmd name rest s =
    let now = clock 0 in
    if-Harmless s (cmd == chars "GET") _ _ (run_get-Harmless now rest s) (
      if-Harmless s (cmd == chars "SETNX") _ _ (run_setnx-Harmless now rest s) (
        if-Harmless s (cmd == chars "SET") _ _ (run_set-Harmless now name rest s) (
          if-Harmless s (cmd == chars "MGET") _ _
            (some_args-Harmless name rest (run_mget clock) s (λ ks h k. absurd (ground arith)))
            (if-Harmless s (cmd == chars "MSET") _ _ (mset-Harmless s (pair_up rest)) (
              if-Harmless s (cmd == chars "DEL") _ _
                (some_args-Harmless name rest _ s
                  (λ ks. fine-Harmless s (Texts.del ks s) (del_from-no_error 0 ks s)))
                (if-Harmless s (cmd == chars "EXISTS") _ _
                  (some_args-Harmless name rest _ s (λ ks.
                    fine-Harmless s (Texts.exists clock ks s)
                      (exists_from-no_error clock 0 0 ks s)))
                  (run_keys-Harmless clock cmd name rest s)))))))

run-Harmless :
    (clock : ℕ → ℕ) (cmd : List ℕ) (name : String) (rest : List String) (s : Store)
    → Harmless s (run clock cmd name rest s)
unfolding run Texts.keys Texts.type_cmd
run-Harmless clock cmd name rest s =
    let now = clock 0 in
    if-Harmless s (cmd == chars "PING") _ _ (ping-Harmless rest s) (
      if-Harmless s (cmd == chars "COMMAND") _ _ (λ h k. refl)
        (if-Harmless s (cmd == chars "FLUSHDB") _ _ (λ h k. absurd (ground arith))
          (if-Harmless s (cmd == chars "KEYS") _ _
            (fine-Harmless s (Texts.keys now (unwrap_or "*" (first rest)) s) refl)
            (if-Harmless s (cmd == chars "TYPE") _ _
              (let a = unwrap_or "" (first rest) in
                done-Harmless s (Texts.type_cmd now a s)
                  (read-Harmless now a (bulk "none") _ s refl))
              (run_texts-Harmless clock cmd name rest s)))))

-- A command that replies an error leaves every key as it was: whatever the command and its
-- arguments, and whatever the readings of the clock, each key has the entry that it had.
pub dispatch-error :
    (clock : ℕ → ℕ) (args : List String) (s : Store) (key : String)
    → failed (dispatch clock args s).1 ≡ true
    → Map.get key (dispatch clock args s).0 ≡ Map.get key s
unfolding dispatch
dispatch-error clock [] s key h = refl
dispatch-error clock (name ∷ rest) s key h =
    run-Harmless clock (map upper (chars name)) name rest s h key
