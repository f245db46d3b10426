-- ===== src/Tests/RefinementTests.antt =====
-- Three edits of one session, beside the abstract machine.
use package.pocket_vault.Base.{List, [], ◌∷◌}
use package.pocket_vault.Vault.Edits.{Edit, adding, updating, deleting, edit_all}
use package.pocket_vault.Vault.Ledger.{ledger_of, answers, Turns}
use package.pocket_vault.Vault.Refinement.{edit_all_refines}
use package.pocket_vault.Tests.Toy.{toy}
use package.pocket_vault.Tests.Scene.{mail, mail_id, renamed, session, session-IsSound}

abbrev three_edits : List Edit
three_edits = updating renamed 300 ∷ deleting mail_id 250 ∷ adding mail 400 ∷ []

edit_all_refines_example :
    Turns toy
      (ledger_of session)
      6
      three_edits
      (answers toy three_edits session 6)
      (ledger_of (edit_all toy three_edits session 6).0)
      (edit_all toy three_edits session 6).1
edit_all_refines_example = edit_all_refines toy three_edits session 6 session-IsSound
