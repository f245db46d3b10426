-- ===== src/Tests/ModelTests.antt =====
-- The tests of crates/vault-core/src/model.rs at concrete values.
use package.pocket_vault.Base.{◌≡◌, ◌↔◌, ok}
use package.pocket_vault.Model.{validate_meta, validate_slot, validate_container}
use package.pocket_vault.Model.Spec.{MetaIsSound, SlotIsSound, ContainerIsSound}
use package.pocket_vault.Model.Validation.{
  validate_meta_iff, validate_slot_iff, validate_container_iff,
}
use package.pocket_vault.Tests.Scene.{created, vault_id, no_slot}

validate_meta_iff_example : (validate_meta created.metadata ≡ ok tt) ↔ MetaIsSound created.metadata
validate_meta_iff_example = validate_meta_iff created.metadata

validate_slot_iff_example : (validate_slot no_slot vault_id ≡ ok tt) ↔ SlotIsSound no_slot vault_id
validate_slot_iff_example = validate_slot_iff no_slot vault_id

validate_container_iff_example :
    (validate_container created.unlocked.container vault_id 0 ≡ ok tt) ↔ (
      ContainerIsSound created.unlocked.container
      × (created.unlocked.container.vault_id ≡ vault_id)
      × (created.unlocked.container.generation ≡ 0))
validate_container_iff_example = validate_container_iff created.unlocked.container vault_id 0
