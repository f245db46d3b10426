-- ===== src/Model/Validation.antt =====
-- The `validate` methods of crates/vault-core/src/model.rs against Model.Spec.
use package.pocket_vault.Base.{
  ℕ, ◌≡◌, ◌↔◌, false, String, Option, none, some, List, [], ◌∷◌, All, arith, ==_iff, string_eq,
  nat_eq, ok, refl,
}
use package.pocket_vault.Model.{
  VaultId, EntryId, vault_id_eq, entry_id_eq, validate_format, KdfParams, validate_kdf, VaultMetaV1,
  validate_meta, EncryptedVaultSlotV1, validate_slot, VaultEntry, validate_entry_fields,
  validate_entry, VaultContainerV1, contains_id, validate_member, validate_entries,
  validate_container,
}
use package.pocket_vault.Model.Spec.{
  KdfWithinLimits, MetaIsSound, SlotIsSound, FieldsFit, MemberIsSound, Absent, DistinctIds,
  ContainerIsSound,
}

-- Key-derivation parameters are accepted exactly when each lies within its limits.
pub validate_kdf_iff : (kdf : KdfParams) → (validate_kdf kdf ≡ ok tt) ↔ KdfWithinLimits kdf
unfolding validate_kdf
validate_kdf_iff kdf = (λ h. ground arith, λ h. ground arith)

validate_format_iff :
    (format : String) (version : ℕ)
    → (validate_format format version ≡ ok tt) ↔ ((format ≡ "pocket-vault") × (version ≡ 1))
unfolding validate_format
validate_format_iff format version = ground (arith, ==_iff format "pocket-vault")

-- Metadata is accepted exactly when its format, version, parameters and key sizes are right.
pub validate_meta_iff : (meta : VaultMetaV1) → (validate_meta meta ≡ ok tt) ↔ MetaIsSound meta
unfolding validate_meta validate_format
validate_meta_iff meta = (
  λ h. ground (arith, ==_iff meta.format "pocket-vault", validate_kdf_iff meta.kdf),
  λ h. ground (arith, ==_iff meta.format "pocket-vault", validate_kdf_iff meta.kdf),
)

-- A slot envelope is accepted exactly when it is of this format and vault and has possible sizes.
pub validate_slot_iff :
    (slot : EncryptedVaultSlotV1) (vault_id : VaultId)
    → (validate_slot slot vault_id ≡ ok tt) ↔ SlotIsSound slot vault_id
unfolding validate_slot validate_format
validate_slot_iff slot vault_id = (
  λ h. ground (arith, ==_iff slot.format "pocket-vault", ==_iff slot.vault_id vault_id),
  λ h. ground (arith, ==_iff slot.format "pocket-vault", ==_iff slot.vault_id vault_id),
)

pub validate_entry_fields_iff :
    (title secret : String) (description : Option String)
    → (validate_entry_fields title secret description ≡ ok tt) ↔ FieldsFit title secret description
unfolding validate_entry_fields
validate_entry_fields_iff title secret none = (λ h. ground arith, λ h. ground arith)
validate_entry_fields_iff title secret (some value) = (λ h. ground arith, λ h. ground arith)

-- One step of the loop over the entries.
validate_member_iff :
    (container : VaultContainerV1) (ids : List EntryId) (entry : VaultEntry)
    → (validate_member container ids entry ≡ ok tt)
      ↔ (MemberIsSound container entry × (contains_id ids entry.id ≡ false))
unfolding validate_member validate_entry
validate_member_iff container ids entry =
    let fields = validate_entry_fields_iff entry.title entry.secret entry.description in
    (λ h. ground (arith, fields), λ h. ground (arith, fields))

-- None of these identifiers is the identifier of an entry.
abbrev Unused : List EntryId → List VaultEntry → Type 0
Unused ids entries = All (λ id. Absent id entries) ids

Unused-nil : (ids : List EntryId) → Unused ids []
Unused-nil [] = tt
Unused-nil (id ∷ ids) = (tt, Unused-nil ids)

Unused-tail :
    (ids : List EntryId) (entry : VaultEntry) (entries : List VaultEntry)
    → Unused ids (entry ∷ entries) ↔ ((contains_id ids entry.id ≡ false) × Unused ids entries)
Unused-tail [] entry entries = (λ h. (refl, tt), λ h. tt)
Unused-tail (id ∷ ids) entry entries = (
  λ h. ground (arith, ==_iff id entry.id, (Unused-tail ids entry entries).0 h.1),
  λ h. ground (arith, ==_iff id entry.id, Unused-tail ids entry entries),
)

-- The loop accepts the entries exactly when each is sound, none repeats another's identifier, and
-- none has an identifier that was seen before.
validate_entries_iff :
    (container : VaultContainerV1) (ids : List EntryId) (entries : List VaultEntry)
    → (validate_entries container ids entries ≡ ok tt)
      ↔ (All (MemberIsSound container) entries × DistinctIds entries × Unused ids entries)
unfolding validate_entries
validate_entries_iff container ids [] = (λ h. (tt, tt, Unused-nil ids), λ h. refl)
validate_entries_iff container ids (entry ∷ entries) = (
  λ h. ground (
    arith,
    validate_member_iff container ids entry,
    validate_entries_iff container (entry.id ∷ ids) entries,
    Unused-tail ids entry entries,
  ),
  λ h. ground (
    arith,
    validate_member_iff container ids entry,
    validate_entries_iff container (entry.id ∷ ids) entries,
    Unused-tail ids entry entries,
  ),
)

-- A container is accepted for a vault and a generation exactly when it is theirs and is sound: its
-- format and times are right, it has room, each entry is sound, and no identifier occurs twice.
pub validate_container_iff :
    (container : VaultContainerV1) (vault_id : VaultId) (generation : ℕ)
    → (validate_container container vault_id generation ≡ ok tt) ↔ (
        ContainerIsSound container
        × (container.vault_id ≡ vault_id)
        × (container.generation ≡ generation))
unfolding validate_container validate_format
validate_container_iff container vault_id generation = (
  λ h. ground (
    arith,
    ==_iff container.format "pocket-vault",
    ==_iff container.vault_id vault_id,
    validate_entries_iff container [] container.entries,
  ),
  λ h. ground (
    arith,
    ==_iff container.format "pocket-vault",
    ==_iff container.vault_id vault_id,
    validate_entries_iff container [] container.entries,
  ),
)
