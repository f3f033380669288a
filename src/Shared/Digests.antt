-- ===== src/Shared/Digests.antt =====
-- Base64url texts of 32 bytes, as `Buffer` reads and prints them: 43 digits of six bits, of which the
-- last two bits are no part of the bytes.
use Prim.Native.Nat.{ℕ, ◌+◌, ◌-◌, ◌*◌, ◌/◌, ◌%◌}
use Prim.Native.String.{String}
use mathlib.Core.Path.{◌≡◌, refl}
use mathlib.Core.Bool.{Bool, true, false, ◌&&◌}
use mathlib.Core.List.{List, [], ◌∷◌}
use native.Mathlib.Omega.{arith}
use agent_life.Shared.Tests.{leb, ◌==◌, if◌then◌else◌}
use agent_life.Shared.Text.{codes, digest}

sextet : ℕ → ℕ
sextet c =
    if leb b'A' c && leb c b'Z'
    then c - b'A'
    else if leb b'a' c && leb c b'z'
    then c - b'a' + 26
    else if leb b'0' c && leb c b'9'
    then c - b'0' + 52
    else if c == b'-'
    then 62
    else 63

sextets : ℕ → List ℕ → ℕ
unfolding sextet
sextets acc [] = acc
sextets acc (c ∷ cs) = sextets (acc * 64 + sextet c) cs

-- The 32 bytes as a number, most significant first.
unfoldable pub decoded : String → ℕ
unfolding sextets
decoded text = sextets 0 (codes text) / 4

-- A text that is the print of the bytes that it is read as.
unfoldable pub opaque_id : String → Bool
unfolding sextets
opaque_id text = digest text && sextets 0 (codes text) % 4 == 0

-- `equalDigest`: texts of the same bytes.
unfoldable pub equal_digest : String → String → Bool
equal_digest left right = digest left && digest right && decoded left == decoded right

pub equal_digest_trans :
    (a b c : String) → equal_digest a b ≡ true → equal_digest b c ≡ true → equal_digest a c ≡ true
unfolding equal_digest
equal_digest_trans a b c h k = ground arith

pub equal_digest_sym : (a b : String) → equal_digest a b ≡ true → equal_digest b a ≡ true
unfolding equal_digest
equal_digest_sym a b h = ground arith

pub equal_digest-digest : (a b : String) → equal_digest a b ≡ true → digest a ≡ true
unfolding equal_digest
equal_digest-digest a b h = ground arith

sample : opaque_id "AAAAAAAAAAAAAAAAAAAAAAAAAAAAAAAAAAAAAAAAAAA" ≡ true
unfolding opaque_id digest codes
sample = refl

spare_bits : opaque_id "AAAAAAAAAAAAAAAAAAAAAAAAAAAAAAAAAAAAAAAAAAB" ≡ false
unfolding opaque_id digest codes
spare_bits = refl
