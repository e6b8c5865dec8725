-- ===== src/Digest/Tests.antt =====
-- The digests of known messages.
use bridge_framework.Base.{◌≡◌, ◌<◌, ◌+◌, ◌%◌, ◌∷◌, [], ◌++◌, refl, chars, length, arith}
use bridge_framework.Digest.{fill, zeros}
use bridge_framework.Digest.Padding
use bridge_framework.Digest.Padding.{gap}
use bridge_framework.Digest.{sha256_hex, hmac_sha256, hex_all}

sha256_hex_runs :
    sha256_hex (chars "abc")
    ≡ chars "ba7816bf8f01cfea414140de5dae2223b00361a396177a9cb410ff61f20015ad"
unfolding sha256_hex
sha256_hex_runs = refl

hmac_sha256_runs :
    hex_all (hmac_sha256 (chars "key") (chars "The quick brown fox jumps over the lazy dog"))
    ≡ chars "f7bc83f430538424b13298e6aa6fb143ef4d59a14946175997479dbc2d1a3cd8"
unfolding hmac_sha256
hmac_sha256_runs = refl

fill-ends_example :
    (fill 63 (1 ∷ 2 ∷ []) ≡ (1 ∷ 2 ∷ []) ++ zeros (gap 2))
    × (length (fill 63 (1 ∷ 2 ∷ [])) % 64 ≡ 56)
    × (length (fill 63 (1 ∷ 2 ∷ [])) < 2 + 64)
fill-ends_example = Padding.fill-ends 63 (1 ∷ 2 ∷ []) (omega arith)
