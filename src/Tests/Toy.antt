-- ===== src/Tests/Toy.antt =====
-- A concrete platform, so that the code runs: a counting random source, a cipher that appends a
-- checksum of the key, the nonce and the associated data, and codecs that write numbers in
-- hexadecimal.
use Prim.Native.Char.{code}
use Prim.Native.String.{◌++◌ as ◌<>◌}
use package.pocket_vault.Base.{
  ℕ, zero, suc, ◌+◌, ◌-◌, ◌*◌, ◌/◌, ◌%◌, ◌≡◌, refl, true, Bytes, String, List, [], ◌∷◌, ◌++◌,
  Option, none, some, length, length-append, arith, Eq, ◌==◌, ==_iff, ==_refl, nat_eq, list_eq,
  option_eq, if◌then◌else◌, Bool-cases, inl, inr,
}
use package.pocket_vault.Model.{
  SlotId, slot_a, slot_b, argon2id, xchacha20_poly1305, VaultMetaV1, vault_meta_eq,
  EncryptedVaultSlotV1, encrypted_slot_eq, ActiveSlotV1, active_slot_eq, VaultEntry,
  VaultContainerV1, vault_container_eq,
}
use package.pocket_vault.Platform.{Codec, CodecLaws, Platform, PlatformLaws}

abbrev pub take : ℕ → Bytes → Bytes
take zero xs = []
take (suc n) [] = []
take (suc n) (x ∷ xs) = x ∷ take n xs

abbrev pub drop : ℕ → Bytes → Bytes
drop zero xs = xs
drop (suc n) [] = []
drop (suc n) (x ∷ xs) = drop n xs

abbrev pub replicate : ℕ → ℕ → Bytes
replicate zero a = []
replicate (suc n) a = a ∷ replicate n a

abbrev pub sum : Bytes → ℕ
sum [] = 0
sum (x ∷ xs) = x + sum xs

pub length-replicate : (n a : ℕ) → length (replicate n a) ≡ n
length-replicate zero a = refl
length-replicate (suc n) a = omega (arith, length-replicate n a)

pub take-append : (xs ys : Bytes) → take (length xs) (xs ++ ys) ≡ xs
take-append [] ys = refl
take-append (x ∷ xs) ys = rw (take-append xs ys)

pub drop-append : (xs ys : Bytes) → drop (length xs) (xs ++ ys) ≡ ys
drop-append [] ys = refl
drop-append (x ∷ xs) ys = drop-append xs ys

abbrev pub tag : Bytes → Bytes → Bytes → Bytes
tag key nonce aad = replicate 16 ((sum key + sum nonce + sum aad) % 256)

abbrev pub toy_seal : Bytes → Bytes → Bytes → Bytes → Option Bytes
toy_seal key nonce message aad = some (message ++ tag key nonce aad)

abbrev pub toy_unseal : Bytes → Bytes → Bytes → Bytes → Option Bytes
toy_unseal key nonce ciphertext aad =
    let n = length ciphertext - 16 in
    if drop n ciphertext == tag key nonce aad then some (take n ciphertext) else none

-- A codec that refuses what it could not read back.
abbrev pub checked : {A T : Type 0} ⦃e : Eq A⦄ → (A → T) → (T → Option A) → Codec A T
checked write read = record {
  encode = λ a. if read (write a) == some a then some (write a) else none;
  decode = read;
}

pub checked-laws :
    {A T : Type 0} ⦃e : Eq A⦄ (write : A → T) (read : T → Option A) → CodecLaws (checked write read)
checked-laws write read = record {
  decode-encode = λ a t h. elim (Bool-cases (read (write a) == some a)) [
    | inl same ↦
        let back : read (write a) ≡ some a = (==_iff (read (write a)) (some a)).0 same in
        ground (arith, same, back)
    | inr differs ↦ absurd (ground (arith, differs))
  ];
}

-- The text of a number below 16 ^ 6, and the numbers of a text.
abbrev pub nth : ℕ → List String → String
nth n [] = ""
nth zero (x ∷ xs) = x
nth (suc n) (x ∷ xs) = nth n xs

abbrev pub digit : ℕ → String
digit n = nth n (
    "0" ∷ "1" ∷ "2" ∷ "3" ∷ "4" ∷ "5" ∷ "6" ∷ "7" ∷ "8" ∷ "9" ∷ ":" ∷ ";" ∷ "<" ∷ "=" ∷ ">" ∷ "?"
    ∷ [])

abbrev pub write_numbers : List ℕ → String
write_numbers [] = ""
write_numbers (n ∷ ns) =
    digit (n / 4096 % 16)
    <> (digit (n / 256 % 16) <> (digit (n / 16 % 16) <> (digit (n % 16) <> write_numbers ns)))

abbrev pub codes : String → List ℕ
codes String.[] = []
codes (String.◌∷◌ c s) = code c ∷ codes s

abbrev pub read_digits : List ℕ → List ℕ
read_digits (a ∷ b ∷ c ∷ d ∷ rest) =
    ((a - 48) * 4096 + (b - 48) * 256 + (c - 48) * 16 + (d - 48)) ∷ read_digits rest
read_digits _ = []

abbrev pub place_number : SlotId → ℕ
place_number slot_a = 0
place_number slot_b = 1

abbrev pub place_of : ℕ → SlotId
place_of zero = slot_a
place_of (suc n) = slot_b

abbrev pub write_slot : EncryptedVaultSlotV1 → String
write_slot s = write_numbers (
    s.version
    ∷ place_number s.slot
    ∷ s.generation
    ∷ (s.vault_id.bytes ++ (s.nonce.as_slice ++ s.ciphertext.as_slice)))

abbrev pub slot_of : List ℕ → Option EncryptedVaultSlotV1
slot_of (version ∷ place ∷ generation ∷ rest) = some (record {
  format = "pocket-vault";
  version = version;
  vault_id = record { bytes = take 16 rest };
  slot = place_of place;
  generation = generation;
  algorithm = xchacha20_poly1305;
  nonce = record { as_slice = take 24 (drop 16 rest) };
  ciphertext = record { as_slice = drop 40 rest };
})
slot_of _ = none

abbrev pub write_pointer : ActiveSlotV1 → String
write_pointer p = write_numbers (p.version ∷ place_number p.slot ∷ p.generation ∷ [])

abbrev pub pointer_of : List ℕ → Option ActiveSlotV1
pointer_of (version ∷ place ∷ generation ∷ []) =
    some (record { version = version; slot = place_of place; generation = generation })
pointer_of _ = none

abbrev pub write_meta : VaultMetaV1 → String
write_meta m = write_numbers (
    m.version
    ∷ m.created_at
    ∷ m.kdf.memory_kib
    ∷ m.kdf.iterations
    ∷ m.kdf.parallelism
    ∷ m.kdf.output_bytes
    ∷ (m.vault_id.bytes
        ++ (m.kdf.salt.as_slice
            ++ (m.wrapped_dek.nonce.as_slice ++ m.wrapped_dek.ciphertext.as_slice))))

abbrev pub meta_of : List ℕ → Option VaultMetaV1
meta_of (version ∷ created_at ∷ memory ∷ iterations ∷ parallelism ∷ output ∷ rest) = some (record {
  format = "pocket-vault";
  version = version;
  vault_id = record { bytes = take 16 rest };
  created_at = created_at;
  kdf = record {
    algorithm = argon2id;
    salt = record { as_slice = take 16 (drop 16 rest) };
    memory_kib = memory;
    iterations = iterations;
    parallelism = parallelism;
    output_bytes = output;
  };
  wrapped_dek = record {
    algorithm = xchacha20_poly1305;
    nonce = record { as_slice = take 24 (drop 32 rest) };
    ciphertext = record { as_slice = drop 56 rest };
  };
})
meta_of _ = none

-- Entries of one title and secret are enough here.
abbrev pub write_entries : List VaultEntry → Bytes
write_entries [] = []
write_entries (e ∷ es) = sum (take 1 e.id.bytes) ∷ e.created_at ∷ e.updated_at ∷ write_entries es

abbrev pub entries_of : Bytes → List VaultEntry
entries_of (id ∷ created ∷ updated ∷ rest) =
    record {
      id = record { bytes = replicate 16 id };
      title = "Mail";
      secret = "secret";
      description = none;
      created_at = created;
      updated_at = updated;
    }
    ∷ entries_of rest
entries_of _ = []

abbrev pub write_container : VaultContainerV1 → Bytes
write_container c =
    c.version
    ∷ c.generation
    ∷ c.created_at
    ∷ c.updated_at
    ∷ (c.vault_id.bytes ++ write_entries c.entries)

abbrev pub container_of : Bytes → Option VaultContainerV1
container_of (version ∷ generation ∷ created ∷ updated ∷ rest) = some (record {
  format = "pocket-vault";
  version = version;
  vault_id = record { bytes = take 16 rest };
  generation = generation;
  created_at = created;
  updated_at = updated;
  entries = entries_of (drop 16 rest);
})
container_of _ = none

-- The random source is the number of calls so far.
abbrev pub toy : Platform ℕ
toy = record {
  fill = λ n calls. (some (replicate n ((calls + 1) % 256)), calls + 1);
  accepts_params = λ memory iterations parallelism output. true;
  hash_password = λ memory iterations parallelism output password salt.
      some (replicate output ((sum password + sum salt) % 256));
  hkdf_expand = λ salt key info output. some (replicate output ((sum salt + sum key) % 256));
  accepts_key = λ key. length key == 32;
  seal = toy_seal;
  unseal = toy_unseal;
  container_json = checked write_container container_of;
  meta_json = checked write_meta (λ text. meta_of (read_digits (codes text)));
  slot_json = checked write_slot (λ text. slot_of (read_digits (codes text)));
  pointer_json = checked write_pointer (λ text. pointer_of (read_digits (codes text)));
}

toy_unseal-seal :
    (key nonce message aad : Bytes)
    → toy_unseal key nonce (message ++ tag key nonce aad) aad ≡ some message
toy_unseal-seal key nonce message aad =
    let t = tag key nonce aad in
    let size : length (message ++ t) - 16 ≡ length message = omega (
      arith,
      length-append message t,
      length-replicate 16 ((sum key + sum nonce + sum aad) % 256),
    ) in
    rw (size, drop-append message t, take-append message t, ==_refl {A = Bytes} t)

-- The concrete platform keeps every promise, so the theorems that assume them apply to it.
pub toy-PlatformLaws : PlatformLaws toy
toy-PlatformLaws = record {
  length-fill = λ n calls bytes h. ground (arith, length-replicate n ((calls + 1) % 256));
  unseal-seal =
      λ key nonce message aad ciphertext h. ground (arith, toy_unseal-seal key nonce message aad);
  length-seal = λ key nonce message aad ciphertext h. ground (
    arith,
    length-append message (tag key nonce aad),
    length-replicate 16 ((sum key + sum nonce + sum aad) % 256),
  );
  container_laws = checked-laws write_container container_of;
  meta_laws = checked-laws write_meta (λ text. meta_of (read_digits (codes text)));
  slot_laws = checked-laws write_slot (λ text. slot_of (read_digits (codes text)));
  pointer_laws = checked-laws write_pointer (λ text. pointer_of (read_digits (codes text)));
}
