-- ===== src/P2p/Plain.antt =====
-- A concrete Crypto for the tests: digests of zeros, and a cipher that only adds a tag of zeros.
use xray_mesh.Base.{
  ℕ, zero, suc, ◌+◌, ◌<◌, ◌≡◌, refl, arith, some, [], ◌∷◌, ◌++◌, length, drop, All,
}
use xray_mesh.P2p.Secret.{Crypto}
use xray_mesh.Text.{Bytes}

unfoldable pub zeros : ℕ → Bytes
zeros zero = []
zeros (suc n) = 0 ∷ zeros n

pub zeros_small : (n : ℕ) → All (λ x. x < 256) (zeros n)
unfolding zeros
zeros_small zero = tt
zeros_small (suc n) = (omega arith, zeros_small n)

unfoldable pub digest : Bytes → Bytes
unfolding zeros
digest b = zeros 32

pub digest_32 : (b : Bytes) → length (digest b) ≡ 32
unfolding digest zeros
digest_32 b = refl

pub digest_small : (b : Bytes) → All (λ x. x < 256) (digest b)
unfolding digest
digest_small b = zeros_small 32

unfoldable pub tag_on : Bytes → Bytes → Bytes → Bytes → Bytes
unfolding zeros
tag_on key nonce text aad = zeros 16 ++ text

pub tag_length :
    (key nonce text aad : Bytes) → length (tag_on key nonce text aad) ≡ length text + 16
unfolding tag_on zeros
tag_length key nonce text aad = omega arith

pub tag_off : (key nonce text aad : Bytes) → some (drop 16 (tag_on key nonce text aad)) ≡ some text
unfolding tag_on zeros
tag_off key nonce text aad = refl

abbrev pub plain : Crypto
plain = record {
  sha256 = digest;
  hmac = λ key b. digest b;
  hmac_length = λ key b. digest_32 b;
  hmac_bytes = λ key b. digest_small b;
  seal = tag_on;
  open_sealed = λ key nonce text aad. some (drop 16 text);
  digest_length = digest_32;
  digest_bytes = digest_small;
  seal_length = tag_length;
  open-seal = tag_off;
}
