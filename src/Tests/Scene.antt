-- ===== src/Tests/Scene.antt =====
-- One vault, from its creation on, that the tests share.
use package.pocket_vault.Base.{
  ◌≡◌, refl, Bytes, [], none, some, ok, err, Result, as_bytes, from_utf8,
}
use package.pocket_vault.Model.{
  VaultId, EntryId, slot_a, other, default_config, from_config, validate_kdf, validate_entry_fields,
  NewVaultEntry, UpdateVaultEntry, EncryptedVaultSlotV1, VaultMetaV1, xchacha20_poly1305,
}
use package.pocket_vault.Crypto.{random_array, derive_kek, wrap_dek, encrypt, encrypt_slot_payload}
use package.pocket_vault.Vault.{
  UnlockedVault, CreatedVault, empty_container, validate_new_master_password, serialize_container,
  fresh_kek, create_vault, add_entry, push_entry, admit_entry, generate_unique_entry_id, draw_id,
}
use package.pocket_vault.Model.Spec.{ContainerIsSound}
use package.pocket_vault.Vault.Invariant.{add_entry-IsSound}
use package.pocket_vault.Vault.Reopen.{empty_container-IsSound}
use package.pocket_vault.Vault.{encrypt_for_slot, encrypt_for_slot_at_generation}
use package.pocket_vault.Model.{other}
use package.pocket_vault.Tests.Toy.{toy, replicate}

abbrev pub password : Bytes
password = as_bytes "follow the white rabbit home"

abbrev pub new_password : Bytes
new_password = as_bytes "a new phrase beyond the looking glass"

abbrev pub vault_id : VaultId
vault_id = record { bytes = replicate 16 1 }

-- A value to fall back on where a call fails.
abbrev pub value_or : {E A : Type 0} → Result E A → A → A
value_or (ok a) b = a
value_or (err e) b = b

abbrev pub no_slot : EncryptedVaultSlotV1
no_slot = record {
  format = "";
  version = 0;
  vault_id = vault_id;
  slot = slot_a;
  generation = 0;
  algorithm = xchacha20_poly1305;
  nonce = record { as_slice = [] };
  ciphertext = record { as_slice = [] };
}

abbrev pub no_meta : VaultMetaV1
no_meta = record {
  format = "";
  version = 0;
  vault_id = vault_id;
  created_at = 0;
  kdf = from_config [] default_config;
  wrapped_dek = record {
    algorithm = xchacha20_poly1305;
    nonce = record { as_slice = [] };
    ciphertext = record { as_slice = [] };
  };
}

abbrev pub no_vault : CreatedVault
no_vault = record {
  metadata = no_meta;
  initial_slot = no_slot;
  active_slot = record { version = 0; slot = slot_a; generation = 0 };
  unlocked = record { container = empty_container vault_id 0; dek = []; persisted_slot = slot_a };
}

-- The vault that is created with the password at time 100.
unfoldable pub created : CreatedVault
unfolding create_vault validate_new_master_password from_utf8 random_array fresh_kek validate_kdf
    from_config derive_kek wrap_dek encrypt serialize_container encrypt_slot_payload
created = value_or (create_vault toy password default_config 100 0).0 no_vault

pub created_runs : create_vault toy password default_config 100 0 ≡ (ok created, 5)
unfolding created
created_runs = refl

abbrev pub mail : NewVaultEntry
mail = record { title = "Mail"; secret = "secret"; description = none }

-- The identifier that the random source yields next.
abbrev pub mail_id : EntryId
mail_id = record { bytes = replicate 16 6 }

abbrev pub renamed : UpdateVaultEntry
renamed = record { id = mail_id; title = "Letters"; secret = "other"; description = some "home" }

-- The session after the first entry was added at time 200.
unfoldable pub session : UnlockedVault
unfolding created add_entry push_entry admit_entry generate_unique_entry_id draw_id random_array
    validate_entry_fields
session = (add_entry toy created.unlocked mail 200 5).1

pub session_adds : (add_entry toy created.unlocked mail 200 5).0 ≡ ok mail_id
unfolding session
session_adds = refl

pub created-IsSound : ContainerIsSound created.unlocked.container
unfolding created
created-IsSound = empty_container-IsSound vault_id 100

pub session-IsSound : ContainerIsSound session.container
unfolding session
session-IsSound = add_entry-IsSound toy created.unlocked mail 200 5 created-IsSound

-- The slot that the session is next saved to.
unfoldable pub next_slot : EncryptedVaultSlotV1
unfolding session encrypt_for_slot encrypt_for_slot_at_generation serialize_container
    encrypt_slot_payload random_array encrypt other
next_slot = value_or (encrypt_for_slot toy session (other session.persisted_slot) 6).0 no_slot

pub next_slot_runs :
    encrypt_for_slot toy session (other session.persisted_slot) 6 ≡ (ok next_slot, 7)
unfolding next_slot
next_slot_runs = refl
