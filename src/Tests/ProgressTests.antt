-- ===== src/Tests/ProgressTests.antt =====
-- A save on a storage whose calls all succeed.
use package.pocket_vault.Base.{◌≡◌, refl, String, List, [], ok, arith, inr, ==_iff, string_eq}
use package.pocket_vault.Model.{other, aad_byte}
use package.pocket_vault.Crypto.{vault_slot_aad, push_aad_field}
use package.pocket_vault.Storage.{
  DeviceStorage, StorageLaws, lookup, insert, erase, lookup-insert, lookup-erase, save,
}
use package.pocket_vault.Storage.SaveSafety.{next_pointer}
use package.pocket_vault.Storage.Progress.{Works, save_succeeds}
use package.pocket_vault.Tests.Toy.{toy, toy-PlatformLaws, write_slot, write_pointer}
use package.pocket_vault.Tests.Scene.{session, session-IsSound, next_slot, next_slot_runs}

-- The in-memory adapter without the injection of failures.
abbrev plain_storage : DeviceStorage (List (String × String))
plain_storage = record {
  get = λ key m. (ok (lookup key m), m);
  set = λ key value m. (ok tt, insert key value m);
  remove = λ key m. (ok tt, erase key m);
}

plain_storage-StorageLaws : StorageLaws plain_storage
plain_storage-StorageLaws = record {
  peek = λ m k. lookup k m;
  get_lem = λ k m v h. ground arith;
  get-peek = λ k m j. refl;
  set-peek_self = λ k v m h. ground (arith, lookup-insert k k v m, ==_iff k k);
  set-peek_failed = λ k v m. inr (ground (arith, lookup-insert k k v m, ==_iff k k));
  set-peek_ne = λ k v m j ne. ground (arith, lookup-insert k j v m, ==_iff k j);
  remove-peek_self = λ k m h. ground (arith, lookup-erase k k m, ==_iff k k);
  remove-peek_ne = λ k m j ne. ground (arith, lookup-erase k j m, ==_iff k j);
}

plain_storage-Works : Works plain_storage
plain_storage-Works = record { gets = λ k m. (lookup k m, refl); sets = λ k v m. refl }

save_succeeds_example : (save toy plain_storage session 6 []).0 ≡ ok tt
unfolding next_slot vault_slot_aad push_aad_field aad_byte
save_succeeds_example =
    save_succeeds toy toy-PlatformLaws plain_storage-StorageLaws plain_storage-Works session
      next_slot 6 7 [] (write_slot next_slot)
      (write_pointer (next_pointer (other session.persisted_slot) 1)) session-IsSound next_slot_runs
      (record { encoded = refl; bounded = omega arith })
      (record { encoded = refl; bounded = omega arith })
