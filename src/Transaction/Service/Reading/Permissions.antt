-- ===== src/Transaction/Service/Reading/Permissions.antt =====
-- Who may read what.
use ot_sec_file_transfer.Base.{◌≡◌, ◌⊎◌, ◌↔◌, arith, true, some, Text, lookup, ok}
use ot_sec_file_transfer.Transaction.Types.{Transaction, FileEntry, committed, delivered}
use ot_sec_file_transfer.Transaction.States.{require_readable}
use ot_sec_file_transfer.Transaction.Files.{find_file}
use ot_sec_file_transfer.Transaction.Repository.{find}
use ot_sec_file_transfer.Transaction.Service.Core.{Caller, Service, Server}
use ot_sec_file_transfer.Transaction.Service.Access.{may_read}
use ot_sec_file_transfer.Transaction.Service.Reading.{get, open_download}

module _ {S U D : Type 0} (o : Service S U D) where
  -- `get` shows a transaction exactly to those who may read it.
  pub get_iff :
      (caller : Caller) (id : Text) (s : Server S) (tx : Transaction)
      → (get o caller id s ≡ ok tx)
        ↔ ((lookup id s.index ≡ some tx) × (may_read caller tx o.is_recipient ≡ true))
  unfolding get find
  get_iff caller id s tx = (λ h. ground arith, λ h. ground arith)

  -- A file is opened exactly if the store opens it and the transaction is one that the caller may
  -- read, is committed or delivered, and lists the file.
  pub open_download_iff :
      (caller : Caller) (id path : Text) (s : Server S) (source : D)
      → (open_download o caller id path s ≡ ok source) ↔ (
          (tx : Transaction) × (entry : FileEntry) × (lookup id s.index ≡ some tx)
          × (may_read caller tx o.is_recipient ≡ true)
          × ((tx.state ≡ committed) ⊎ (tx.state ≡ delivered))
          × (find_file tx.files path ≡ some entry)
          × (o.store.open_read id path s.disk ≡ ok source))
  unfolding open_download find require_readable
  open_download_iff caller id path s source = (λ h. ground arith, λ h. ground arith)
