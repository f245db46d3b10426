-- ===== src/Vault/Ledger.antt =====
-- The session of crates/vault-core/src/vault.rs as an abstract machine: a map of entries, with what
-- an edit answers and does, refusals included.
use Prim.Native.Nat.{max}
use package.pocket_vault.Base.{
  ℕ, suc, Bytes, ◌≡◌, ◌≢◌, String, ◌<◌, ◌≤◌, ◌+◌, List, [], ◌∷◌, length, Option, none, some, Result,
  ok, err,
}
use package.pocket_vault.Error.{
  VaultError, random_generation_failed, entry_not_found, vault_too_large, invalid_container,
}
use package.pocket_vault.Model.{EntryId, entry_id_eq, VaultEntry, NewVaultEntry, UpdateVaultEntry}
use package.pocket_vault.Model.Spec.{FieldsFit}
use package.pocket_vault.Platform.{Platform}
use package.pocket_vault.Vault.Session.{UnlockedVault}
use package.pocket_vault.Vault.Entries.{add_entry, update_entry, delete_entry}
use package.pocket_vault.Vault.Edits.{Edit, adding, updating, deleting, edit}
use package.pocket_vault.Vault.EntryMap.{entry_at}

-- The abstract state: the entry under each identifier, their number, and the time of the last change.
pub record Ledger : Type 0 where
  pub at : EntryId → Option VaultEntry
  pub size : ℕ
  pub updated_at : ℕ

abbrev pub ledger_of : UnlockedVault → Ledger
ledger_of vault = record {
  at = entry_at vault;
  size = length vault.container.entries;
  updated_at = vault.container.updated_at;
}

-- What an edit returns.
pub data Answer : Type 0 where
  added : EntryId → Answer
  done : Answer
  failed : VaultError → Answer

abbrev entry_of : NewVaultEntry → EntryId → ℕ → VaultEntry
entry_of input id time = record {
  id = id;
  title = input.title;
  secret = input.secret;
  description = input.description;
  created_at = time;
  updated_at = time;
}

abbrev changed_to : UpdateVaultEntry → ℕ → VaultEntry → VaultEntry
changed_to input time entry = record {
  id = entry.id;
  title = input.title;
  secret = input.secret;
  description = input.description;
  created_at = entry.created_at;
  updated_at = max time entry.created_at;
}

-- One mapping has changed, at a time that is not before the last change.
pub record Written (m : Ledger) (id : EntryId) (entry : Option VaultEntry) (now : ℕ) (m' : Ledger)
    : Type 0 where
  pub here : m'.at id ≡ entry
  pub elsewhere : (j : EntryId) → id ≢ j → m'.at j ≡ m.at j
  pub time : m'.updated_at ≡ max now m.updated_at

abbrev pub id_of : Bytes → EntryId
id_of bytes = record { bytes = bytes }

-- Drawing an identifier that the map does not have, in so many attempts: the random source fails, or
-- gives a free identifier, or one that is taken and another attempt is made.
pub data Draws {R : Type 0} (platform : Platform R) (m : Ledger)
    : ℕ → R → Option EntryId → R → Type 0 where
  exhausted : (rng : R) → Draws platform m 0 rng none rng
  broken :
      (attempts : ℕ) (rng : R)
      → (platform.fill 16 rng).0 ≡ none
      → Draws platform m (suc attempts) rng none (platform.fill 16 rng).1
  free :
      (attempts : ℕ) (rng : R) (bytes : Bytes)
      → (platform.fill 16 rng).0 ≡ some bytes
      → m.at (id_of bytes) ≡ none
      → Draws platform m (suc attempts) rng (some (id_of bytes)) (platform.fill 16 rng).1
  taken :
      (attempts : ℕ) (rng rng' : R) (bytes : Bytes) (entry : VaultEntry) (found : Option EntryId)
      → (platform.fill 16 rng).0 ≡ some bytes
      → m.at (id_of bytes) ≡ some entry
      → Draws platform m attempts (platform.fill 16 rng).1 found rng'
      → Draws platform m (suc attempts) rng found rng'

-- The steps of the abstract machine: an edit and the random source, the answer, and the state and the
-- random source after it.
pub data Turn {R : Type 0} (platform : Platform R) (m : Ledger) (rng : R)
    : Edit → Answer → Ledger → R → Type 0 where
  inserts :
      (input : NewVaultEntry) (now : ℕ) (id : EntryId) (m' : Ledger) (rng' : R)
      → FieldsFit input.title input.secret input.description
      → m.size < 10000
      → Draws platform m 8 rng (some id) rng'
      → m.at id ≡ none
      → Written m id (some (entry_of input id (max now m.updated_at))) now m'
      → m'.size ≡ m.size + 1
      → Turn platform m rng (adding input now) (added id) m' rng'
  rewrites :
      (input : UpdateVaultEntry) (now : ℕ) (entry : VaultEntry) (m' : Ledger)
      → FieldsFit input.title input.secret input.description
      → m.at input.id ≡ some entry
      → Written m input.id (some (changed_to input (max now m.updated_at) entry)) now m'
      → m'.size ≡ m.size
      → Turn platform m rng (updating input now) done m' rng
  erases :
      (id : EntryId) (now : ℕ) (entry : VaultEntry) (m' : Ledger)
      → m.at id ≡ some entry
      → Written m id none now m'
      → m.size ≡ m'.size + 1
      → Turn platform m rng (deleting id now) done m' rng
  unfit_new :
      (input : NewVaultEntry) (now : ℕ) (text : String)
      → ¬ FieldsFit input.title input.secret input.description
      → Turn platform m rng (adding input now) (failed (invalid_container text)) m rng
  full :
      (input : NewVaultEntry) (now : ℕ)
      → FieldsFit input.title input.secret input.description
      → 10000 ≤ m.size
      → Turn platform m rng (adding input now) (failed vault_too_large) m rng
  undrawn :
      (input : NewVaultEntry) (now : ℕ) (rng' : R)
      → FieldsFit input.title input.secret input.description
      → m.size < 10000
      → Draws platform m 8 rng none rng'
      → Turn platform m rng (adding input now) (failed random_generation_failed) m rng'
  unfit_change :
      (input : UpdateVaultEntry) (now : ℕ) (text : String)
      → ¬ FieldsFit input.title input.secret input.description
      → Turn platform m rng (updating input now) (failed (invalid_container text)) m rng
  unknown_change :
      (input : UpdateVaultEntry) (now : ℕ)
      → FieldsFit input.title input.secret input.description
      → m.at input.id ≡ none
      → Turn platform m rng (updating input now) (failed entry_not_found) m rng
  unknown :
      (id : EntryId) (now : ℕ)
      → m.at id ≡ none
      → Turn platform m rng (deleting id now) (failed entry_not_found) m rng

pub data Turns {R : Type 0} (platform : Platform R)
    : Ledger → R → List Edit → List Answer → Ledger → R → Type 0 where
  stop : (m : Ledger) (rng : R) → Turns platform m rng [] [] m rng
  turn :
      (m m' m'' : Ledger) (rng rng' rng'' : R) (e : Edit) (a : Answer) (es : List Edit)
      (replies : List Answer)
      → Turn platform m rng e a m' rng'
      → Turns platform m' rng' es replies m'' rng''
      → Turns platform m rng (e ∷ es) (a ∷ replies) m'' rng''

abbrev pub answer_added : Result VaultError EntryId → Answer
answer_added (ok id) = added id
answer_added (err e) = failed e

abbrev pub answer_done : Result VaultError (Unit {0}) → Answer
answer_done (ok _) = done
answer_done (err e) = failed e

module _ {R : Type 0} (platform : Platform R) where
  -- What an edit of the session answers.
  abbrev pub answer : Edit → UnlockedVault → R → Answer
  answer (adding input now) vault rng = answer_added (add_entry platform vault input now rng).0
  answer (updating input now) vault rng = answer_done (update_entry input now vault).0
  answer (deleting id now) vault rng = answer_done (delete_entry id now vault).0

  unfoldable pub answers : List Edit → UnlockedVault → R → List Answer
  answers [] vault rng = []
  answers (e ∷ es) vault rng =
      let (vault', rng') = edit platform e vault rng in answer e vault rng ∷ answers es vault' rng'
