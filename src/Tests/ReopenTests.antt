-- ===== src/Tests/ReopenTests.antt =====
-- The tests of crates/vault-wasm/src/bridge.rs that read entries, refuse calls and open again.
use package.pocket_vault.Base.{
  inl, ◌≡◌, refl, true, String, none, some, ok, err, arith, [], ◌∷◌, from_utf8,
}
use package.pocket_vault.Model.{
  VaultMetaV1, validate_meta, validate_format, validate_kdf, from_config, SlotId, slot_a, slot_b,
}
use package.pocket_vault.Crypto.{
  wrapped_dek_aad, push_aad_field, random_array, derive_kek, wrap_dek, unwrap_dek, encrypt, decrypt,
}
use package.pocket_vault.Vault.{
  rewrap_vault_key, authorize_rewrap, validate_new_master_password, fresh_kek,
}
use package.pocket_vault.Vault.Commits.{advanced}
use package.pocket_vault.Storage.{
  decode_stored, lookup, meta_key, slot_a_key, slot_b_key, active_slot_key, slot_key,
}
use package.pocket_vault.Storage.Holding.{InStep, InStep-view}
use package.pocket_vault.Bridge.{
  BridgeError, StorageSnapshot, VaultBridge, locked, lock, is_locked, prepare_save,
  prepare_password_change, open_session, commit_password_change, plan_password_change,
  ensure_mutable,
}
use package.pocket_vault.Bridge.Entries.{
  Payloads, list_entries_json, get_entry_json, get_entry_details_json, get_entry_secret, add_entry,
}
use package.pocket_vault.Bridge.Privacy.{
  with_entries, without_text, without_secret, payloads_omit_secrets,
}
use package.pocket_vault.Bridge.Refusals.{IsBusy, only_commits_while_busy}
use package.pocket_vault.Bridge.TwoPhase.{prepares, adds}
use package.pocket_vault.Bridge.Coherence.{IsCoherent}
use package.pocket_vault.Bridge.Steps.{next, done, reachable-IsCoherent}
use package.pocket_vault.Bridge.Locked.{locked_for_good}
use package.pocket_vault.Bridge.Loading.{view_of, view_of_lem, session_of}
use package.pocket_vault.Bridge.PasswordOpen.{password_change-open_session}
use package.pocket_vault.Bridge.SaveOpen.{after_save, save-open_session}
use package.pocket_vault.Tests.Toy.{toy, toy-PlatformLaws}
use package.pocket_vault.Tests.ToyBase64.{toy_base64}
use package.pocket_vault.Tests.Scene.{password, new_password, created, session, value_or}
use package.pocket_vault.Tests.StorageTests.{stored, session-InStep}
use package.pocket_vault.Tests.BridgeTests.{bridge, bundle, prepared_runs}

abbrev toy_payloads : Payloads
toy_payloads = record {
  summaries_json = λ entries. some "summaries";
  entry_json = λ e. some e.secret;
  details_json = λ e. some e.title;
}

-- The text of the identifier of the session's entry.
abbrev pub id_text : String
id_text = toy_base64.encode (6 ∷ 6 ∷ 6 ∷ 6 ∷ 6 ∷ 6 ∷ 6 ∷ 6 ∷ 6 ∷ 6 ∷ 6 ∷ 6 ∷ 6 ∷ 6 ∷ 6 ∷ 6 ∷ [])

payloads_omit_secrets_example :
    (list_entries_json toy_base64 toy_payloads bridge
      ≡ list_entries_json toy_base64 toy_payloads (with_entries without_text bridge))
    × (get_entry_details_json toy_base64 toy_payloads id_text bridge
        ≡ get_entry_details_json toy_base64 toy_payloads id_text
            (with_entries without_secret bridge))
payloads_omit_secrets_example = payloads_omit_secrets toy_base64 toy_payloads bridge id_text

abbrev busy : VaultBridge
busy = (prepare_save toy bridge 6).1

busy-IsBusy : IsBusy busy
unfolding bundle
busy-IsBusy = inl (_, refl)

busy-IsCoherent : IsCoherent toy busy
busy-IsCoherent =
    reachable-IsCoherent toy bridge busy refl
      (next bridge busy busy (prepares bridge 6) (done busy))

only_commits_while_busy_example :
    (add_entry toy_base64 toy "Mail" "secret" none 300 busy 7).1 ≡ busy
only_commits_while_busy_example =
    only_commits_while_busy toy busy (add_entry toy_base64 toy "Mail" "secret" none 300 busy 7).1
      (adds toy_base64 busy "Mail" "secret" none 300 7) busy-IsCoherent busy-IsBusy

-- A locked bridge on which a save is prepared.
abbrev after_lock : VaultBridge
after_lock = (prepare_save toy (lock busy) 7).1

locked_for_good_example :
    (after_lock
      ≡ record { vault = none; metadata = none; pending = none; pending_password_change = none })
    × (is_locked after_lock ≡ true)
    × (list_entries_json toy_base64 toy_payloads after_lock ≡ err locked)
    × ((e : BridgeError) × (get_entry_json toy_base64 toy_payloads id_text after_lock ≡ err e)
        × (get_entry_details_json toy_base64 toy_payloads id_text after_lock ≡ err e)
        × (get_entry_secret toy_base64 id_text after_lock ≡ err e))
locked_for_good_example =
    locked_for_good toy busy after_lock toy_base64 toy_payloads id_text
      (next (lock busy) after_lock after_lock (prepares (lock busy) 7) (done after_lock))

-- What the storage of the initialized vault holds.
abbrev pub snapshot : StorageSnapshot
snapshot = record {
  metadata_json = lookup meta_key stored.values;
  slot_a_json = lookup slot_a_key stored.values;
  slot_b_json = lookup slot_b_key stored.values;
  active_pointer_json = lookup active_slot_key stored.values;
}

snapshot-slots :
    (place : SlotId) → view_of snapshot (slot_key place) ≡ lookup (slot_key place) stored.values
snapshot-slots slot_a = (view_of_lem snapshot).1
snapshot-slots slot_b = (view_of_lem snapshot).2

-- The session is in step with it, as it is with the storage itself.
pub snapshot-InStep :
    InStep toy (view_of snapshot) password created.metadata session created.unlocked.container
snapshot-InStep =
    InStep-view toy (λ k. lookup k stored.values) (view_of snapshot) password created.metadata
      session created.unlocked.container (view_of_lem snapshot).0 snapshot-slots session-InStep

save-open_session_example :
    open_session toy password (after_save bundle snapshot)
    ≡ ok (record {
      session = session_of (advanced session) created.metadata;
      repaired_pointer_json = none;
    })
unfolding bundle
save-open_session_example =
    save-open_session toy toy-PlatformLaws snapshot password created.metadata session
      created.unlocked.container bridge busy 6 7 bundle snapshot-InStep refl prepared_runs
      (omega arith) (omega arith)

-- The text of the metadata under a new password.
unfoldable changed : String
unfolding bundle created session validate_meta validate_format wrapped_dek_aad push_aad_field
    rewrap_vault_key authorize_rewrap validate_new_master_password from_utf8 random_array fresh_kek
    validate_kdf from_config derive_kek wrap_dek unwrap_dek encrypt decrypt prepare_password_change
    plan_password_change ensure_mutable
changed = value_or (prepare_password_change toy password new_password bridge 6).0 ""

changed_runs :
    prepare_password_change toy password new_password bridge 6
    ≡ (ok changed, (prepare_password_change toy password new_password bridge 6).1, 8)
unfolding changed
changed_runs = refl

snapshot_points :
    decode_stored toy.pointer_json 1024 (view_of snapshot active_slot_key)
    ≡ ok (
        some (record {
          version = 1;
          slot = session.persisted_slot;
          generation = created.unlocked.container.generation;
        }))
unfolding stored session
snapshot_points = rw ((view_of_lem snapshot).3) refl

password_change-open_session_example :
    (meta' : VaultMetaV1) × (toy.meta_json.encode meta' ≡ some changed)
    × (open_session toy new_password (record snapshot { metadata_json = some changed })
        ≡ ok (record {
          session = session_of (record session { container = created.unlocked.container }) meta';
          repaired_pointer_json = none;
        }))
    × (commit_password_change toy changed
          (prepare_password_change toy password new_password bridge 6).1
        ≡ (ok tt, record bridge { metadata = some meta'; pending_password_change = none }))
unfolding changed
password_change-open_session_example =
    password_change-open_session toy toy-PlatformLaws snapshot password new_password
      created.metadata session created.unlocked.container bridge
      (prepare_password_change toy password new_password bridge 6).1 6 8 changed snapshot-InStep
      snapshot_points refl refl changed_runs (omega arith)
