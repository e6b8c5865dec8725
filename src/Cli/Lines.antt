-- ===== src/Cli/Lines.antt =====
-- How the daemon reads the lines of the command line.
use bridge_framework.Base.{
  ◌≡◌, refl, ap, ◌∙◌, true, false, [], ◌∷◌, ◌++◌, chars, ◌==◌, nat_eq, list_eq, ok, err,
  if◌then◌else◌, IsSolid, string_eq, Chars, IsWord, split_words, split_words-IsWord,
  split_words-cons, to_uppercase, space, is_word, is_word-IsWord,
}
use bridge_framework.Protocol.{
  DaemonMode, mode_as_str, percent_encode, lite, full, ultra, off, missing_argument,
}
use bridge_framework.Protocol.Command.{
  Command, decoded, set_mode, compile, db_put, pg_migrate, redis_set,
}
use bridge_framework.Protocol.Parser.{parse_words, parse_command}
use bridge_framework.Protocol.Lines.{
  IsLatin, decoded-encode, two_words-line, percent_encode-IsSolid, parse_command-split_words,
}

pub name-line :
    (a b x : Chars) (c : Command)
    → is_word a ≡ true
    → is_word b ≡ true
    → IsWord x
    → parse_words (a ∷ b ∷ x ∷ []) ≡ ok c
    → parse_command (a ++ space ∷ (b ++ space ∷ x)) ≡ ok c
name-line a b x c ha hb hx means =
    two_words-line a b x ha hb
    ∙ ap (λ ws. parse_words (a ∷ b ∷ ws)) (split_words-IsWord x hx)
    ∙ means

pub mode-line :
    (m : DaemonMode) → parse_command (chars "MODE SET " ++ chars (mode_as_str m)) ≡ ok (set_mode m)
unfolding parse_command mode_as_str
mode-line lite = refl
mode-line full = refl
mode-line ultra = refl
mode-line off = refl

pub pair-line :
    (a b x y : Chars) (c : Command)
    → is_word a ≡ true
    → is_word b ≡ true
    → IsWord x
    → IsWord y
    → parse_words (a ∷ b ∷ x ∷ y ∷ []) ≡ ok c
    → parse_command (a ++ space ∷ (b ++ space ∷ (x ++ space ∷ y))) ≡ ok c
pair-line a b x y c ha hb hx hy means =
    two_words-line a b (x ++ space ∷ y) ha hb
    ∙ ap (λ ws. parse_words (a ∷ b ∷ ws))
        (split_words-cons x y hx ∙ ap (◌∷◌ x) (split_words-IsWord y hy))
    ∙ means

pub put-line :
    (ns key s : Chars)
    → IsWord ns
    → IsWord key
    → IsLatin s
    → parse_command (chars "DB PUT " ++ (ns ++ space ∷ (key ++ space ∷ percent_encode s)))
      ≡ ok (db_put ns key s)
unfolding parse_words
put-line ns key s hns hkey latin =
    two_words-line (chars "DB") (chars "PUT") (ns ++ space ∷ (key ++ space ∷ percent_encode s)) refl
      refl
    ∙ ap (λ ws. parse_words (chars "DB" ∷ chars "PUT" ∷ ws))
        (split_words-cons ns (key ++ space ∷ percent_encode s) hns
          ∙ ap (◌∷◌ ns) (split_words-cons key (percent_encode s) hkey))
    ∙ decoded-encode (db_put ns key) s latin

pub set-line :
    (key s : Chars)
    → IsWord key
    → IsLatin s
    → parse_command (chars "REDIS SET " ++ (key ++ space ∷ percent_encode s)) ≡ ok (redis_set key s)
unfolding parse_words
set-line key s hkey latin =
    two_words-line (chars "REDIS") (chars "SET") (key ++ space ∷ percent_encode s) refl refl
    ∙ ap (λ ws. parse_words (chars "REDIS" ∷ chars "SET" ∷ ws))
        (split_words-cons key (percent_encode s) hkey)
    ∙ decoded-encode (redis_set key) s latin

pub migrate-line :
    (s : Chars)
    → IsLatin s
    → parse_command (chars "PG MIGRATE " ++ percent_encode s) ≡ ok (pg_migrate s)
unfolding parse_words
migrate-line s latin =
    two_words-line (chars "PG") (chars "MIGRATE") (percent_encode s) refl refl
    ∙ decoded-encode pg_migrate s latin

compile-words :
    (e : Chars)
    → IsSolid e
    → (to_uppercase e == chars "FILE") ≡ false
    → parse_words (chars "COMPILE" ∷ split_words e) ≡ decoded compile (split_words e)
unfolding parse_words split_words
compile-words [] solid other = refl
compile-words (c ∷ e) solid other = rw (split_words-IsWord (c ∷ e) (refl, solid)) (
    ap
      (λ b.
        if b
        then err (missing_argument "COMPILE FILE requires path")
        else decoded compile ((c ∷ e) ∷ []))
      other)

pub compile-line :
    (s : Chars)
    → IsLatin s
    → (to_uppercase (percent_encode s) == chars "FILE") ≡ false
    → parse_command (chars "COMPILE " ++ percent_encode s) ≡ ok (compile s)
compile-line s latin other =
    parse_command-split_words (chars "COMPILE " ++ percent_encode s)
    ∙ ap parse_words (
        split_words-cons (chars "COMPILE") (percent_encode s)
          (is_word-IsWord (chars "COMPILE") refl))
    ∙ compile-words (percent_encode s) (percent_encode-IsSolid s) other
    ∙ decoded-encode compile s latin
