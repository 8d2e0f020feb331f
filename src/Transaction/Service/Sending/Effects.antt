-- ===== src/Transaction/Service/Sending/Effects.antt =====
-- What `create` and `receive` do to the transactions, on success and on failure.
use ot_sec_file_transfer.Base.{ℕ, ◌≡◌, false, ◌∷◌, none, arith, Text, lookup, put, is_ok, ok}
use ot_sec_file_transfer.Transaction.Types.{Transaction}
use ot_sec_file_transfer.Transaction.Repository.{insert}
use ot_sec_file_transfer.Transaction.Service.Core.{
  Caller, CreateRequest, ReceiveRequest, BizEventType, Service, Server, lock_for, event_for,
}
use ot_sec_file_transfer.Transaction.Service.Sending.{
  create, receive, create_checks, receive_checks, new_transaction, target_server_of,
  received_transaction,
}

module _ {S U D : Type 0} (o : Service S U D) where
  pub create_failed :
      (caller : Caller) (req : CreateRequest) (id : Text) (now : ℕ) (s : Server S)
      → is_ok (create o caller req id now s).0 ≡ false
      → ((create o caller req id now s).1.index ≡ s.index)
        × ((create o caller req id now s).1.log ≡ s.log)
  unfolding create insert
  create_failed caller req id now s = ground arith

  pub create_done :
      (caller : Caller) (req : CreateRequest) (id : Text) (now : ℕ) (s : Server S)
      (tx : Transaction)
      → (create o caller req id now s).0 ≡ ok tx
      → (expires : ℕ) × (create_checks o caller req (target_server_of o req) now ≡ ok expires)
        × (tx ≡ new_transaction o caller req id now expires)
        × (lookup id s.index ≡ none)
        × ((create o caller req id now s).1.index ≡ put id tx s.index)
        × ((create o caller req id now s).1.log
            ≡ event_for BizEventType.tx_created tx caller ∷ s.log)
  unfolding create insert new_transaction
  create_done caller req id now s tx h = ground arith

  pub receive_failed :
      (peer : Caller) (req : ReceiveRequest) (s : Server S)
      → is_ok (receive o peer req s).0 ≡ false
      → ((receive o peer req s).1.index ≡ s.index) × ((receive o peer req s).1.log ≡ s.log)
  unfolding receive insert lock_for
  receive_failed peer req s = ground arith

  pub receive_done :
      (peer : Caller) (req : ReceiveRequest) (s : Server S) (tx : Transaction)
      → (receive o peer req s).0 ≡ ok tx
      → (receive_checks o peer req ≡ ok tt)
        × (tx ≡ received_transaction o peer req)
        × (lookup req.id s.index ≡ none)
        × ((receive o peer req s).1.index ≡ put req.id tx s.index)
        × ((receive o peer req s).1.log ≡ s.log)
  unfolding receive insert lock_for received_transaction
  receive_done peer req s tx h = ground arith
