-- ===== src/Auth/Reads.antt =====
-- Claims are read back from the JSON that they are printed as.
use mathlib.Core.List.{append_assoc, append-nil}
use bridge_framework.Base.{
  neither, ℕ, ◌^◌, ◌<◌, ◌≡◌, refl, sym, ap, ◌∙◌, Bool, false, ◌||◌, Option, some, none, List, [],
  ◌∷◌, ◌++◌, map, chars, All, push, ok, ◌>>=◌, ◌==◌, nat_eq, list_eq, Chars, IsWord, split_words,
  split_words-cons, split_words-IsWord, join_words,
}
use bridge_framework.Base.Map.{Map}
use bridge_framework.Auth.Claims.{JwtClaims, no_claims, compare_chars, Order, tree_insert}
use bridge_framework.Auth.Scan.{add_claim, add_claims}
use bridge_framework.Auth.Fields.{IsPlain}
use bridge_framework.Auth.Numbers.{parse_number-decimal}
use bridge_framework.Auth.Objects.{Field, text, number, field_pair}

abbrev pub text_fields : Chars → Option Chars → List Field
text_fields k none = []
text_fields k (some v) = text k v ∷ []

abbrev pub number_fields : Chars → Option ℕ → List Field
number_fields k none = []
number_fields k (some n) = number k n ∷ []

abbrev pub scope_fields : List Chars → List Field
scope_fields [] = []
scope_fields (w ∷ ws) = text (chars "scope") (join_words (w ∷ ws)) ∷ []

abbrev pub custom_fields : Map Chars Chars → List Field
custom_fields [] = []
custom_fields ((k, v) ∷ m) = text k v ∷ custom_fields m

abbrev pub fields : JwtClaims → List Field
fields c =
    text_fields (chars "sub") c.sub
    ++ (text_fields (chars "iss") c.iss
        ++ (number_fields (chars "iat") c.iat
            ++ (number_fields (chars "exp") c.exp
                ++ (scope_fields c.scopes ++ custom_fields c.custom))))

-- The names that `from_json` does not keep among the custom claims.
abbrev pub is_registered : Chars → Bool
is_registered k =
    k == chars "sub"
    || k == chars "iss"
    || k == chars "iat"
    || k == chars "exp"
    || k == chars "scope"
    || k == chars "scopes"

-- Each key is greater than those before it, as in every `BTreeMap`.
abbrev pub IsAscending : Map Chars Chars → Map Chars Chars → Type 0
IsAscending seen [] = Unit
IsAscending seen ((k, v) ∷ m) =
    All (λ (e : Chars × Chars). compare_chars k e.0 ≡ Order.greater) seen
    × IsAscending (push seen (k, v)) m

abbrev pub HasPlain : Option Chars → Type 0
HasPlain none = Unit
HasPlain (some v) = IsPlain v

abbrev pub HasU64 : Option ℕ → Type 0
HasU64 none = Unit
HasU64 (some n) = n < 2 ^ 64

-- Claims whose texts are plain, whose numbers fit, whose scopes are words, and whose custom names are
-- in order and not those of the registered claims.
pub record IsClaims (c : JwtClaims) : Type 0 where
  pub sub : HasPlain c.sub
  pub iss : HasPlain c.iss
  pub iat : HasU64 c.iat
  pub exp : HasU64 c.exp
  pub scopes : All (λ w. IsWord w × IsPlain w) c.scopes
  pub custom :
      All
        (λ (e : Chars × Chars). (IsPlain e.0 × IsPlain e.1) × (is_registered e.0 ≡ false))
        c.custom
  pub ascending : IsAscending [] c.custom

pub map-append :
    {A B : Type 0} (f : A → B) (xs ys : List A) → map f (xs ++ ys) ≡ map f xs ++ map f ys
map-append f [] ys = refl
map-append f (x ∷ xs) ys = ap (λ zs. f x ∷ zs) (map-append f xs ys)

add-sub :
    (o : Option Chars) (rest : List Field)
    → add_claims (map field_pair (text_fields (chars "sub") o ++ rest)) no_claims
      ≡ add_claims (map field_pair rest) (record no_claims { sub = o })
unfolding add_claims
add-sub none rest = refl
add-sub (some v) rest = refl

add-iss :
    (o sub : Option Chars) (rest : List Field)
    → let c : JwtClaims = record no_claims { sub = sub } in
      add_claims (map field_pair (text_fields (chars "iss") o ++ rest)) c
      ≡ add_claims (map field_pair rest) (record c { iss = o })
unfolding add_claims
add-iss none sub rest = refl
add-iss (some v) sub rest = refl

add-iat :
    (o : Option ℕ) (sub iss : Option Chars) (rest : List Field)
    → HasU64 o
    → let c : JwtClaims = record no_claims { sub = sub; iss = iss } in
      add_claims (map field_pair (number_fields (chars "iat") o ++ rest)) c
      ≡ add_claims (map field_pair rest) (record c { iat = o })
unfolding add_claims
add-iat none sub iss rest h = refl
add-iat (some n) sub iss rest h = rw (parse_number-decimal (2 ^ 64) n h) refl

add-exp :
    (o iat : Option ℕ) (sub iss : Option Chars) (rest : List Field)
    → HasU64 o
    → let c : JwtClaims = record no_claims { sub = sub; iss = iss; iat = iat } in
      add_claims (map field_pair (number_fields (chars "exp") o ++ rest)) c
      ≡ add_claims (map field_pair rest) (record c { exp = o })
unfolding add_claims
add-exp none iat sub iss rest h = refl
add-exp (some n) iat sub iss rest h = rw (parse_number-decimal (2 ^ 64) n h) refl

split_words-join_words :
    (w : Chars) (ws : List Chars)
    → All (λ w. IsWord w × IsPlain w) (w ∷ ws)
    → split_words (join_words (w ∷ ws)) ≡ w ∷ ws
split_words-join_words w [] h = split_words-IsWord w h.0.0
split_words-join_words w (v ∷ ws) h =
    split_words-cons w (join_words (v ∷ ws)) h.0.0
    ∙ ap (λ vs. w ∷ vs) (split_words-join_words v ws h.1)

add-scope :
    (ws : List Chars) (c : JwtClaims) (rest : List Field)
    → c.scopes ≡ []
    → All (λ w. IsWord w × IsPlain w) ws
    → add_claims (map field_pair (scope_fields ws ++ rest)) c
      ≡ add_claims (map field_pair rest) (record c { scopes = ws })
unfolding add_claims
add-scope [] c rest e h = ap (λ s. add_claims (map field_pair rest) (record c { scopes = s })) e
add-scope (w ∷ ws) c rest e h = rw (add_claims, split_words-join_words w ws h) refl

tree_insert-last :
    (k v : Chars) (m : Map Chars Chars)
    → All (λ (e : Chars × Chars). compare_chars k e.0 ≡ Order.greater) m
    → tree_insert k v m ≡ push m (k, v)
unfolding tree_insert
tree_insert-last k v [] h = refl
tree_insert-last k v (e ∷ m) h = rw (tree_insert, h.0, tree_insert-last k v m h.1) refl

add_claim-custom :
    (k v : Chars) (c : JwtClaims)
    → is_registered k ≡ false
    → add_claim (k, v) c ≡ ok (record c { custom = tree_insert k v c.custom })
unfolding add_claim
add_claim-custom k v c h =
    let last = neither _ (k == chars "scopes") h in
    let scope = neither _ (k == chars "scope") last.0 in
    let exp = neither _ (k == chars "exp") scope.0 in
    let iat = neither _ (k == chars "iat") exp.0 in
    let names = neither (k == chars "sub") (k == chars "iss") iat.0 in
    rw (add_claim, names.0, names.1, iat.1, exp.1, scope.1, last.1) refl

add-custom :
    (m seen : Map Chars Chars) (c : JwtClaims)
    → c.custom ≡ seen
    → All (λ (e : Chars × Chars). (IsPlain e.0 × IsPlain e.1) × (is_registered e.0 ≡ false)) m
    → IsAscending seen m
    → add_claims (map field_pair (custom_fields m)) c ≡ ok (record c { custom = seen ++ m })
unfolding add_claims
add-custom [] seen c e h up = ap (λ s. ok (record c { custom = s })) (e ∙ sym (append-nil seen))
add-custom ((k, v) ∷ m) seen c e h up =
    let d : JwtClaims = record c { custom = push seen (k, v) } in
    ap (λ r. r >>= add_claims (map field_pair (custom_fields m)))
      (add_claim-custom k v c h.0.1
        ∙ ap (λ s. ok (record c { custom = s }))
            (ap (tree_insert k v) e ∙ tree_insert-last k v seen up.0))
    ∙ add-custom m (push seen (k, v)) d refl h.1 up.1
    ∙ ap (λ s. ok (record c { custom = s })) (append_assoc seen ((k, v) ∷ []) m)

pub add_claims-fields :
    (c : JwtClaims) → IsClaims c → add_claims (map field_pair (fields c)) no_claims ≡ ok c
add_claims-fields c h =
    add-sub c.sub _
    ∙ add-iss c.iss c.sub _
    ∙ add-iat c.iat c.sub c.iss _ h.iat
    ∙ add-exp c.exp c.iat c.sub c.iss _ h.exp
    ∙ add-scope c.scopes (record no_claims { sub = c.sub; iss = c.iss; iat = c.iat; exp = c.exp })
        (custom_fields c.custom) refl h.scopes
    ∙ add-custom c.custom [] (record c { custom = [] }) refl h.custom h.ascending
