-- ===== src/Auth/Registry.antt =====
-- The session registry of daemon/src/auth.rs. A method that reads the clock takes the readings first, in
-- seconds and in their order. The lock is taken to succeed: it is poisoned only when a holder has panicked.
use bridge_framework.Base.{
  ◌%◌, ◌^◌, map_some, and_then, ℕ, ◌+◌, Bool, false, String, Option, some, none, List, [], ◌∷◌,
  ◌||◌, map, lower, chars, length, filterb, leb, anyb, push, unwrap_or, if◌then◌else◌, Result, ok,
  err, is_ok, ◌>>=◌, ◌==◌, nat_eq, list_eq, Chars, trim_both,
}
use bridge_framework.Base.Map
use bridge_framework.Base.Map.{Map}
use bridge_framework.Auth.Base64.{AuthError, message}
use bridge_framework.Auth.Claims.{JwtClaims}
use bridge_framework.Auth.Jwt.{jwt_sign, jwt_verify}

pub data Scheme : Type 0 where
  bearer api_key no_scheme : Scheme

abbrev pub parse : Chars → Scheme
parse s =
    let word = map lower (trim_both s) in
    if word == chars "bearer"
    then bearer
    else if word == chars "api_key" || word == chars "apikey" || word == chars "x-api-key"
    then api_key
    else no_scheme

abbrev pub as_str : Scheme → Chars
as_str bearer = chars "bearer"
as_str api_key = chars "api_key"
as_str no_scheme = chars "none"

pub record AuthData : Type 0 where
  pub user_id : Option Chars
  pub email : Option Chars
  pub roles : List Chars
  pub custom : Map Chars Chars
  pub expires_at : Option ℕ
  pub issued_at : ℕ

abbrev pub new_data : ℕ → Chars → AuthData
new_data now user_id = record {
  user_id = some user_id;
  email = none;
  roles = [];
  custom = [];
  expires_at = none;
  issued_at = now;
}

abbrev pub with_email : Chars → AuthData → AuthData
with_email email d = record d { email = some email }

abbrev pub with_role : Chars → AuthData → AuthData
with_role role d = record d { roles = push d.roles role }

unfoldable pub with_field : Chars → Chars → AuthData → AuthData
with_field key value d = record d { custom = Map.insert key value d.custom }

-- The sum of 64 bits wraps, as it does in a release build.
abbrev pub with_expiry : ℕ → ℕ → AuthData → AuthData
with_expiry now ttl d = record d { expires_at = some ((now + ttl) % 2 ^ 64) }

abbrev pub is_past : ℕ → Option ℕ → Bool
is_past now none = false
is_past now (some exp) = leb exp now

abbrev pub is_expired : ℕ → AuthData → Bool
is_expired now d = is_past now d.expires_at

abbrev pub has_role : Chars → AuthData → Bool
has_role role d = anyb (λ r. r == role) d.roles

pub record TokenEntry : Type 0 where
  pub scheme : Scheme
  pub raw_token : Chars
  pub auth_data : AuthData
  pub created_at : ℕ

pub record AuthRegistry : Type 0 where
  pub tokens : Map Chars TokenEntry
  pub api_keys : Map Chars TokenEntry

abbrev pub new : AuthRegistry
new = record { tokens = []; api_keys = [] }

abbrev pub entry_of : Scheme → Chars → AuthData → ℕ → TokenEntry
entry_of scheme token d now = record {
  scheme = scheme;
  raw_token = token;
  auth_data = d;
  created_at = now;
}

unfoldable pub set_bearer : ℕ → Chars → AuthData → AuthRegistry → AuthRegistry
set_bearer now token d r = record r {
  tokens = Map.insert token (entry_of bearer token d now) r.tokens;
}

unfoldable pub set_api_key : ℕ → Chars → AuthData → AuthRegistry → AuthRegistry
set_api_key now key d r = record r {
  api_keys = Map.insert key (entry_of api_key key d now) r.api_keys;
}

abbrev validate : ℕ → String → String → Option TokenEntry → Result AuthError AuthData
validate now unknown expired none = err (message unknown)
validate now unknown expired (some entry) =
    if is_expired now entry.auth_data then err (message expired) else ok entry.auth_data

unfoldable pub validate_bearer : ℕ → Chars → AuthRegistry → Result AuthError AuthData
validate_bearer now token r =
    validate now "invalid or expired token" "token has expired" (Map.get token r.tokens)

unfoldable pub validate_api_key : ℕ → Chars → AuthRegistry → Result AuthError AuthData
validate_api_key now key r =
    validate now "invalid API key" "API key has expired" (Map.get key r.api_keys)

-- `strip_prefix`
unfoldable pub strip_prefix : Chars → Chars → Option Chars
strip_prefix [] s = some s
strip_prefix (d ∷ t) [] = none
strip_prefix (d ∷ t) (c ∷ s) = let rest = strip_prefix t s in if c == d then rest else none

abbrev validate_key_header : ℕ → ℕ → Chars → Option Chars → AuthRegistry → Result AuthError AuthData
validate_key_header now again header (some key) r = validate_api_key now (trim_both key) r
validate_key_header now again header none r =
    if is_ok (validate_api_key now header r)
    then validate_api_key again header r
    else err (message "unsupported authentication scheme")

abbrev validate_token_header :
    ℕ → ℕ → Chars → Option Chars → AuthRegistry → Result AuthError AuthData
validate_token_header now again header (some token) r = validate_bearer now (trim_both token) r
validate_token_header now again header none r =
    validate_key_header now again header (strip_prefix (chars "ApiKey ") header) r

unfoldable pub validate_header : ℕ → ℕ → Chars → AuthRegistry → Result AuthError AuthData
unfolding validate_bearer validate_api_key strip_prefix
validate_header now again header r =
    let text = trim_both header in
    validate_token_header now again text (strip_prefix (chars "Bearer ") text) r

unfoldable pub revoke_bearer : Chars → AuthRegistry → AuthRegistry
revoke_bearer token r = record r { tokens = Map.remove token r.tokens }

unfoldable pub revoke_api_key : Chars → AuthRegistry → AuthRegistry
revoke_api_key key r = record r { api_keys = Map.remove key r.api_keys }

abbrev pub clear : AuthRegistry → AuthRegistry
clear r = record { tokens = []; api_keys = [] }

unfoldable pub to_auth_data : ℕ → JwtClaims → AuthData
to_auth_data now c = record {
  user_id = some (unwrap_or [] c.sub);
  email = Map.get (chars "email") c.custom;
  roles = c.scopes;
  custom = c.custom;
  expires_at = c.exp;
  issued_at = unwrap_or now c.iat;
}

unfoldable pub issue_jwt : ℕ → ℕ → JwtClaims → List ℕ → AuthRegistry → AuthRegistry × Chars
unfolding jwt_sign set_bearer to_auth_data
issue_jwt now registered claims secret r =
    let token = jwt_sign claims secret in
    (set_bearer registered token (to_auth_data now claims) r, token)

-- `matches('.').count()`
abbrev pub dots : Chars → ℕ
dots s = length (filterb (λ c. c == b'.') s)

unfoldable pub authenticate : ℕ → ℕ → Chars → List ℕ → AuthRegistry → Result AuthError AuthData
unfolding jwt_verify to_auth_data validate_bearer
authenticate now again token secret r =
    if dots token == 2
    then jwt_verify token secret now >>= (λ c. ok (to_auth_data again c))
    else validate_bearer now token r

unfoldable pub bearer_from_header : Option Chars → Option Chars
unfolding strip_prefix
bearer_from_header header = map_some trim_both (and_then header (strip_prefix (chars "Bearer ")))

-- The whole value of the first header of either name.
unfoldable pub extract_token : List (Chars × Chars) → Option Chars
extract_token [] = none
extract_token ((key, value) ∷ headers) =
    let k = map lower key in
    let rest = extract_token headers in
    if k == chars "authorization" || k == chars "x-api-key" then some value else rest
