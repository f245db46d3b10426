-- ===== src/Tests/ToyBase64.antt =====
-- A concrete engine for the texts of identifiers, which writes a byte as so many letters.
use mathlib.Core.Option
use Prim.Native.Char.{Char, code}
use package.pocket_vault.Base.{
  ℕ, zero, suc, ◌+◌, ◌≡◌, refl, false, Bytes, String, [], ◌∷◌, Option, some, arith, ◌==◌, nat_eq,
  if◌then◌else◌,
}
use package.pocket_vault.Encoding.{Base64, Base64Laws, has_padding}

abbrev letter_a : Char
letter_a = "a"

abbrev letter_b : Char
letter_b = "b"

abbrev unary : ℕ → String → String
unary zero rest = String.◌∷◌ letter_b rest
unary (suc n) rest = String.◌∷◌ letter_a (unary n rest)

abbrev write : Bytes → String
write [] = ""
write (n ∷ ns) = unary n (write ns)

-- The bytes of a text, of which the first has `n` letters before it.
abbrev read : ℕ → String → Option Bytes
read n String.[] = some []
read n (String.◌∷◌ c rest) =
    let end = read 0 rest in
    let more = read (suc n) rest in
    if code c == b'b' then Option.map (λ bytes. n ∷ bytes) end else more

read-unary :
    (n m k : ℕ) (rest : String)
    → k ≡ n + m
    → read m (unary n rest) ≡ Option.map (λ bytes. k ∷ bytes) (read 0 rest)
read-unary zero m k rest h = let same : k ≡ m = omega (arith, h) in rw same
read-unary (suc n) m k rest h = read-unary n (suc m) k rest (omega (arith, h))

read-write : (bytes : Bytes) → read 0 (write bytes) ≡ some bytes
read-write [] = refl
read-write (n ∷ ns) = rw (read-unary n 0 n (write ns) (omega arith), read-write ns)

has_padding-unary : (n : ℕ) (rest : String) → has_padding (unary n rest) ≡ has_padding rest
unfolding has_padding
has_padding-unary zero rest = refl
has_padding-unary (suc n) rest = has_padding-unary n rest

has_padding-write : (bytes : Bytes) → has_padding (write bytes) ≡ false
unfolding has_padding
has_padding-write [] = refl
has_padding-write (n ∷ ns) = rw (has_padding-unary n (write ns)) (has_padding-write ns)

abbrev pub toy_base64 : Base64
toy_base64 = record { encode = write; decode = λ value. read 0 value }

pub toy_base64-Base64Laws : Base64Laws toy_base64
toy_base64-Base64Laws = record {
  decode-encode = λ bytes bounded. read-write bytes;
  has_padding-encode = has_padding-write;
}
