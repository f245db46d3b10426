-- ===== src/Bridge/Editing.antt =====
-- crates/vault-wasm/src/bridge.rs: what the calls on entries do to the session.
use package.pocket_vault.Base.{
  ℕ, ◌≡◌, ◌⊎◌, inl, inr, String, Option, none, some, arith, Result-cases,
}
use package.pocket_vault.Model.{NewVaultEntry}
use package.pocket_vault.Platform.{Platform}
use package.pocket_vault.Encoding.{Base64}
use package.pocket_vault.Vault as V
use package.pocket_vault.Vault.{UnlockedVault}
use package.pocket_vault.Vault.Edits.{Edit, adding, updating, deleting, edit}
use package.pocket_vault.Bridge.State.{VaultBridge, ensure_mutable}
use package.pocket_vault.Bridge.Entries.{parse_entry_id, add_entry, update_entry, delete_entry}
use package.pocket_vault.Bridge.Checks.{ensure_mutable-eq-ok}

-- A call on entries with its arguments.
pub data Call : Type 0 where
  add : (title secret : String) → Option String → ℕ → Call
  update : (id title secret : String) → Option String → ℕ → Call
  delete : (id : String) → ℕ → Call

module _ {R : Type 0} (platform : Platform R) (base64 : Base64) where
  -- The bridge after it.
  abbrev pub call : Call → VaultBridge → R → VaultBridge
  call (add title secret description now) b rng =
      (add_entry base64 platform title secret description now b rng).1
  call (update id title secret description now) b rng =
      (update_entry base64 id title secret description now b).1
  call (delete id now) b rng = (delete_entry base64 id now b).1

  -- Nothing happened, or the session of a bridge without a pending save was edited.
  abbrev pub Edited : VaultBridge → VaultBridge → Type 0
  Edited b b' =
      (b' ≡ b)
      ⊎ ((vault : UnlockedVault) × (e : Edit) × (rng : R) × (b.vault ≡ some vault)
          × (b.pending ≡ none)
          × (b' ≡ record b { vault = some (edit platform e vault rng).0 }))

  pub call-Edited : (c : Call) (b : VaultBridge) (rng : R) → Edited b (call c b rng)
  unfolding add_entry update_entry delete_entry
  call-Edited (add title secret description now) b rng = elim (Result-cases (ensure_mutable b)) [
    | inr (e, refused) ↦ inl (ground (arith, refused))
    | inl (vault, allowed) ↦
        let (idle, present) = ensure_mutable-eq-ok platform b vault allowed in
        let input : NewVaultEntry = record {
          title = title;
          secret = secret;
          description = description;
        } in
        elim (Result-cases (V.add_entry platform vault input now rng).0) [
          | inl (id, done) ↦
              inr (vault, adding input now, rng, present, idle, ground (arith, allowed, done))
          | inr (e, failed) ↦
              inr (vault, adding input now, rng, present, idle, ground (arith, allowed, failed))
        ]
  ]
  call-Edited (update id title secret description now) b rng =
      elim (Result-cases (ensure_mutable b)) [
        | inr (e, refused) ↦ inl (ground (arith, refused))
        | inl (vault, allowed) ↦
            let (idle, present) = ensure_mutable-eq-ok platform b vault allowed in
            elim (Result-cases (parse_entry_id base64 id)) [
              | inr (e, malformed) ↦ inl (ground (arith, allowed, malformed))
              | inl (entry_id, parsed) ↦ inr (
                vault,
                updating
                    (record {
                      id = entry_id;
                      title = title;
                      secret = secret;
                      description = description;
                    })
                    now,
                rng,
                present,
                idle,
                ground (arith, allowed, parsed),
              )
            ]
      ]
  call-Edited (delete id now) b rng = elim (Result-cases (ensure_mutable b)) [
    | inr (e, refused) ↦ inl (ground (arith, refused))
    | inl (vault, allowed) ↦
        let (idle, present) = ensure_mutable-eq-ok platform b vault allowed in
        elim (Result-cases (parse_entry_id base64 id)) [
          | inr (e, malformed) ↦ inl (ground (arith, allowed, malformed))
          | inl (entry_id, parsed) ↦
              inr
                (vault, deleting entry_id now, rng, present, idle, ground (arith, allowed, parsed))
        ]
  ]
