-- ===== src/Tests/DebugTests.antt =====
-- What `Debug` shows of one vault.
use package.pocket_vault.Base.{◌≡◌, refl, [], ◌∷◌, some}
use package.pocket_vault.Debug.{
  debug_session, debug_entry, debug_meta, debug_encrypted_slot, debug_hides,
}
use package.pocket_vault.Model.{VaultEntry}
use package.pocket_vault.Tests.ToyBase64.{toy_base64}
use package.pocket_vault.Tests.Scene.{created, session, mail, mail_id}

-- Entries with titles of four characters.
abbrev shown : VaultEntry
shown = record {
  id = mail_id;
  title = "mail";
  secret = mail.secret;
  description = some "home";
  created_at = 100;
  updated_at = 200;
}

debug_hides_example :
    (debug_session toy_base64 (record session {
      dek = 1 ∷ [];
      container = record session.container { entries = shown ∷ [] };
    })
      ≡ debug_session toy_base64 session)
    × (debug_entry toy_base64
          (record shown { title = "bank"; secret = "other"; description = some "work" })
        ≡ debug_entry toy_base64 shown)
    × (debug_meta toy_base64 (record created.metadata {
      kdf = record created.metadata.kdf { salt = created.metadata.kdf.salt };
      wrapped_dek = record created.metadata.wrapped_dek {
        nonce = created.initial_slot.nonce;
        ciphertext = created.metadata.wrapped_dek.ciphertext;
      };
    })
        ≡ debug_meta toy_base64 created.metadata)
    × (debug_encrypted_slot toy_base64 (record created.initial_slot {
      nonce = created.metadata.wrapped_dek.nonce;
      ciphertext = created.initial_slot.ciphertext;
    })
        ≡ debug_encrypted_slot toy_base64 created.initial_slot)
unfolding created session
debug_hides_example =
    debug_hides toy_base64 session (1 ∷ []) (shown ∷ []) shown "bank" "other" (some "work")
      created.metadata created.metadata.kdf.salt created.initial_slot.nonce
      created.metadata.wrapped_dek.ciphertext created.initial_slot
      created.metadata.wrapped_dek.nonce created.initial_slot.ciphertext refl refl refl refl refl
      refl refl refl
