-- ===== src/Bridge/Steps.antt =====
-- crates/vault-wasm/src/bridge.rs: sequences of calls on a bridge.
use package.pocket_vault.Base.{◌≡◌, none}
use package.pocket_vault.Platform.{Platform}
use package.pocket_vault.Bridge.State.{VaultBridge}
use package.pocket_vault.Bridge.Coherence.{IsCoherent}
use package.pocket_vault.Bridge.TwoPhase.{Step, Step-IsCoherent}

module _ {R : Type 0} (platform : Platform R) where
  -- Calls one after another, in any order and with any arguments.
  pub data Steps : VaultBridge → VaultBridge → Type 0 where
    done : (b : VaultBridge) → Steps b b
    next : (b c d : VaultBridge) → Step platform b c → Steps c d → Steps b d

  Steps-IsCoherent :
      (b b' : VaultBridge) → Steps b b' → IsCoherent platform b → IsCoherent platform b'
  Steps-IsCoherent b _ (done _) coherent = coherent
  Steps-IsCoherent b b' (next _ c _ step rest) coherent =
      Steps-IsCoherent c b' rest (Step-IsCoherent platform b c step coherent)

  -- Every bridge that calls in any number, in any order and with whatever texts handed back lead to
  -- from a bridge without a pending save is coherent: it has a session where a save is pending, and
  -- a slot that counts as verified is the next one of that session.
  pub reachable-IsCoherent :
      (b b' : VaultBridge) → b.pending ≡ none → Steps b b' → IsCoherent platform b'
  reachable-IsCoherent b b' idle steps = Steps-IsCoherent b b' steps (λ p h. cc)
