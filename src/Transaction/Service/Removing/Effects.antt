-- ===== src/Transaction/Service/Removing/Effects.antt =====
-- What `destroy`, its callers and `set_retention` do to the transactions.
use ot_sec_file_transfer.Base.{
  ℕ, ◌≡◌, ◌≢◌, true, false, ◌⊎◌, ◌∷◌, some, arith, Text, lookup, put, erase, is_ok, ok,
}
use ot_sec_file_transfer.Base.Int.{ℤ, ltb_ℤ}
use ot_sec_file_transfer.Transaction.Types.{Transaction, expired}
use ot_sec_file_transfer.Transaction.States.{check_transition, can_transition}
use ot_sec_file_transfer.Transaction.Repository.{save, remove, find}
use ot_sec_file_transfer.Transaction.Service.Core.{
  Caller, BizEventType, Service, Server, lock_for, erase_lock, event_for,
}
use ot_sec_file_transfer.Transaction.Service.Sending.{expires_at}
use ot_sec_file_transfer.Transaction.Service.Removing.{
  destroy, admin_delete, set_retention, retention_event,
}

module _ {S U D : Type 0} (o : Service S U D) where
  -- A removal that succeeds logs its event with the transaction as expired, and takes the
  -- transaction from the index, which it first marks as expired unless it was.
  pub destroy_done :
      (id : Text) (type : BizEventType) (actor : Caller) (s : Server S)
      → is_ok (destroy o id type actor s).0 ≡ true
      → (tx : Transaction) × (lookup id s.index ≡ some tx)
        × ((destroy o id type actor s).1.log
            ≡ event_for type (record tx { state = expired }) actor ∷ s.log)
        × (((tx.state ≡ expired) × ((destroy o id type actor s).1.index ≡ erase id s.index))
            ⊎ ((tx.state ≢ expired)
                × ((destroy o id type actor s).1.index
                    ≡ erase id (put tx.id (record tx { state = expired }) s.index))))
  unfolding destroy lock_for erase_lock find save remove check_transition can_transition
  destroy_done id type actor s h = ground arith

  -- A removal that fails logs nothing, and leaves the index as it was or with the transaction
  -- marked as expired.
  pub destroy_failed :
      (id : Text) (type : BizEventType) (actor : Caller) (s : Server S)
      → is_ok (destroy o id type actor s).0 ≡ false
      → ((destroy o id type actor s).1.log ≡ s.log)
        × (((destroy o id type actor s).1.index ≡ s.index)
            ⊎ ((tx : Transaction) × (lookup id s.index ≡ some tx)
                × (tx.state ≢ expired)
                × ((destroy o id type actor s).1.index
                    ≡ put tx.id (record tx { state = expired }) s.index)))
  unfolding destroy lock_for erase_lock find save remove check_transition can_transition
  destroy_failed id type actor s h = ground arith

  pub set_retention_failed :
      (admin : Caller) (id : Text) (days : ℤ) (s : Server S)
      → is_ok (set_retention o admin id days s).0 ≡ false
      → ((set_retention o admin id days s).1.index ≡ s.index)
        × ((set_retention o admin id days s).1.log ≡ s.log)
  unfolding set_retention lock_for find save
  set_retention_failed admin id days s = ground arith

  -- A change of the retention that succeeds was made by an administrator, with a number of days
  -- within the maximum, of a transaction that is not expired; it moves the expiry to that many
  -- days after the creation, and logs it.
  pub set_retention_done :
      (admin : Caller) (id : Text) (days : ℤ) (s : Server S) (tx' : Transaction)
      → (set_retention o admin id days s).0 ≡ ok tx'
      → (tx : Transaction) × (expires : ℕ) × (lookup id s.index ≡ some tx)
        × (admin.is_admin ≡ true)
        × (ltb_ℤ o.max_retention_days days ≡ false)
        × (tx.state ≢ expired)
        × (expires_at tx.created_at days ≡ ok expires)
        × (tx' ≡ record tx { expires_at = expires })
        × ((set_retention o admin id days s).1.index ≡ put tx.id tx' s.index)
        × ((set_retention o admin id days s).1.log ≡ retention_event o tx' admin days ∷ s.log)
  unfolding set_retention lock_for find save
  set_retention_done admin id days s tx' h = ground arith

  pub admin_delete_granted :
      (admin : Caller) (id : Text) (s : Server S)
      → admin.is_admin ≡ true
      → admin_delete o admin id s ≡ destroy o id BizEventType.admin_deleted admin s
  unfolding admin_delete
  admin_delete_granted admin id s h = ground arith
