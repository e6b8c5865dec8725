-- ===== src/Auth/Prints.antt =====
-- The JSON of claims is the JSON of their fields, so that it is read back whole.
use bridge_framework.Base.{
  ℕ, ◌≡◌, refl, sym, ap, ◌∙◌, false, Option, some, none, List, [], ◌∷◌, ◌++◌, map, chars, All, ok,
  nat_eq, Chars, IsWord, join_words,
}
use bridge_framework.Base.Map.{Map}
use bridge_framework.Auth.Claims.{
  JwtClaims, no_claims, text_part, text_parts, number_parts, scope_parts, custom_parts, parts,
  join_parts, to_json, escape_json_string,
}
use bridge_framework.Auth.Scan.{add_claims, from_json}
use bridge_framework.Auth.Fields.{IsPlain}
use bridge_framework.Auth.Objects.{Field, field_part, AllFields, scan_flat_object-fields}
use bridge_framework.Auth.Reads.{
  text_fields, number_fields, scope_fields, custom_fields, fields, is_registered, HasPlain,
  IsClaims, add_claims-fields, map-append,
}

text_parts-sub :
    (o : Option Chars) → text_parts (chars "sub") o ≡ map field_part (text_fields (chars "sub") o)
unfolding escape_json_string
text_parts-sub none = refl
text_parts-sub (some v) = refl

text_parts-iss :
    (o : Option Chars) → text_parts (chars "iss") o ≡ map field_part (text_fields (chars "iss") o)
unfolding escape_json_string
text_parts-iss none = refl
text_parts-iss (some v) = refl

number_parts-iat :
    (o : Option ℕ) → number_parts (chars "iat") o ≡ map field_part (number_fields (chars "iat") o)
unfolding escape_json_string
number_parts-iat none = refl
number_parts-iat (some n) = refl

number_parts-exp :
    (o : Option ℕ) → number_parts (chars "exp") o ≡ map field_part (number_fields (chars "exp") o)
unfolding escape_json_string
number_parts-exp none = refl
number_parts-exp (some n) = refl

scope_parts-fields : (ws : List Chars) → scope_parts ws ≡ map field_part (scope_fields ws)
unfolding escape_json_string
scope_parts-fields [] = refl
scope_parts-fields (w ∷ ws) = refl

custom_parts-fields : (m : Map Chars Chars) → custom_parts m ≡ map field_part (custom_fields m)
custom_parts-fields [] = refl
custom_parts-fields ((k, v) ∷ m) =
    ap (λ ps. text_part (escape_json_string k) v ∷ ps) (custom_parts-fields m)

map-append_six :
    (f : Field → Chars) (ps bs cs ds es gs : List Field)
    → map f (ps ++ (bs ++ (cs ++ (ds ++ (es ++ gs)))))
      ≡ map f ps ++ (map f bs ++ (map f cs ++ (map f ds ++ (map f es ++ map f gs))))
map-append_six f ps bs cs ds es gs =
    rw
      (
        map-append f ps (bs ++ (cs ++ (ds ++ (es ++ gs)))),
        map-append f bs (cs ++ (ds ++ (es ++ gs))),
        map-append f cs (ds ++ (es ++ gs)),
        map-append f ds (es ++ gs),
        map-append f es gs,
      )
      refl

parts-fields : (c : JwtClaims) → parts c ≡ map field_part (fields c)
parts-fields c =
    rw
      (
        text_parts-sub c.sub,
        text_parts-iss c.iss,
        number_parts-iat c.iat,
        number_parts-exp c.exp,
        scope_parts-fields c.scopes,
        custom_parts-fields c.custom,
      )
      (sym (
        map-append_six field_part (text_fields (chars "sub") c.sub)
          (text_fields (chars "iss") c.iss) (number_fields (chars "iat") c.iat)
          (number_fields (chars "exp") c.exp) (scope_fields c.scopes) (custom_fields c.custom)))

pub to_json-fields :
    (c : JwtClaims) → to_json c ≡ b'{' ∷ join_parts (map field_part (fields c)) ++ b'}' ∷ []
unfolding to_json
to_json-fields c = ap (λ ps. b'{' ∷ join_parts ps ++ b'}' ∷ []) (parts-fields c)

AllFields-append : (fs gs : List Field) → AllFields fs → AllFields gs → AllFields (fs ++ gs)
AllFields-append [] gs h k = k
AllFields-append (f ∷ fs) gs h k = (h.0, AllFields-append fs gs h.1 k)

text_fields-AllFields :
    (k : Chars) (o : Option Chars) → IsPlain k → HasPlain o → AllFields (text_fields k o)
text_fields-AllFields k none hk h = tt
text_fields-AllFields k (some v) hk h = ((hk, h), tt)

number_fields-AllFields : (k : Chars) (o : Option ℕ) → IsPlain k → AllFields (number_fields k o)
number_fields-AllFields k none hk = tt
number_fields-AllFields k (some n) hk = (hk, tt)

append-IsPlain : (s t : Chars) → IsPlain s → IsPlain t → IsPlain (s ++ t)
append-IsPlain [] t h k = k
append-IsPlain (c ∷ s) t h k = (h.0, append-IsPlain s t h.1 k)

join_words-IsPlain :
    (w : Chars) (ws : List Chars)
    → All (λ w. IsWord w × IsPlain w) (w ∷ ws)
    → IsPlain (join_words (w ∷ ws))
join_words-IsPlain w [] h = h.0.1
join_words-IsPlain w (v ∷ ws) h =
    append-IsPlain w (b' ' ∷ join_words (v ∷ ws)) h.0.1 (refl, join_words-IsPlain v ws h.1)

scope_fields-AllFields :
    (ws : List Chars) → All (λ w. IsWord w × IsPlain w) ws → AllFields (scope_fields ws)
scope_fields-AllFields [] h = tt
scope_fields-AllFields (w ∷ ws) h =
    (((refl, (refl, (refl, (refl, (refl, tt))))), join_words-IsPlain w ws h), tt)

custom_fields-AllFields :
    (m : Map Chars Chars)
    → All (λ (e : Chars × Chars). (IsPlain e.0 × IsPlain e.1) × (is_registered e.0 ≡ false)) m
    → AllFields (custom_fields m)
custom_fields-AllFields [] h = tt
custom_fields-AllFields ((k, v) ∷ m) h = (h.0.0, custom_fields-AllFields m h.1)

pub fields-AllFields : (c : JwtClaims) → IsClaims c → AllFields (fields c)
fields-AllFields c h =
    let sub = text_fields-AllFields (chars "sub") c.sub (refl, (refl, (refl, tt))) h.sub in
    let iss = text_fields-AllFields (chars "iss") c.iss (refl, (refl, (refl, tt))) h.iss in
    let iat = number_fields-AllFields (chars "iat") c.iat (refl, (refl, (refl, tt))) in
    let exp = number_fields-AllFields (chars "exp") c.exp (refl, (refl, (refl, tt))) in
    let scopes = scope_fields-AllFields c.scopes h.scopes in
    let custom = custom_fields-AllFields c.custom h.custom in
    AllFields-append _ _ sub (
      AllFields-append _ _ iss
        (AllFields-append _ _ iat (AllFields-append _ _ exp (AllFields-append _ _ scopes custom))))

-- Claims of plain texts, with numbers of 64 bits, scopes of one word each and custom names in
-- order that are not registered, are read back as they were from the JSON that they are printed
-- as.
pub from_json-to_json : (c : JwtClaims) → IsClaims c → from_json (to_json c) ≡ ok c
unfolding from_json
from_json-to_json c h =
    ap from_json (to_json-fields c)
    ∙ ap (λ ps. add_claims ps no_claims) (scan_flat_object-fields (fields c) (fields-AllFields c h))
    ∙ add_claims-fields c h
