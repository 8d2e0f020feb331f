-- ===== src/Transaction/Service/History.antt =====
-- The life of the transactions under any sequence of operations. Each operation holds the mutex of
-- its transaction, so an interleaving of requests is a sequence of `Call`s; the two halves of an
-- upload are two calls.
pub mod Changes
pub mod Steps
pub mod Sealing
use ot_sec_file_transfer.Base.{ℕ, List, [], ◌∷◌, Option, Text}
use ot_sec_file_transfer.Base.Int.{ℤ}
use ot_sec_file_transfer.Transaction.Service.Core.{
  Caller, CreateRequest, ReceiveRequest, Service, Server,
}
use ot_sec_file_transfer.Transaction.Service.Sending.{create, receive}
use ot_sec_file_transfer.Transaction.Service.Uploading.{
  PendingUpload, begin_upload, finish, remove_file,
}
use ot_sec_file_transfer.Transaction.Service.Committing.{commit, mark_delivered}
use ot_sec_file_transfer.Transaction.Service.Removing.{expire, admin_delete, set_retention}

pub data Call (U : Type 0) : Type 0 where
  creates : Caller → CreateRequest → (id : Text) → (now : ℕ) → Call U
  receives : Caller → ReceiveRequest → Call U
  begins : Caller → (id path : Text) → Call U
  finishes : PendingUpload U → Option (List ℕ) → Call U
  unlinks : Caller → (id path : Text) → Call U
  commits : Caller → (id : Text) → (now : ℕ) → Call U
  delivers : (id : Text) → (now : ℕ) → Call U
  expires : (id : Text) → Call U
  deletes : Caller → (id : Text) → Call U
  retains : Caller → (id : Text) → (days : ℤ) → Call U

module _ {S U D : Type 0} (o : Service S U D) where
  unfoldable pub step : Call U → Server S → Server S
  step (creates caller req id now) s = (create o caller req id now s).1
  step (receives peer req) s = (receive o peer req s).1
  step (begins caller id path) s = (begin_upload o caller id path s).1
  step (finishes p expected) s = (finish o p expected s).1
  step (unlinks caller id path) s = (remove_file o caller id path s).1
  step (commits caller id now) s = (commit o caller id now s).1
  step (delivers id now) s = (mark_delivered o id now s).1
  step (expires id) s = (expire o id s).1
  step (deletes admin id) s = (admin_delete o admin id s).1
  step (retains admin id days) s = (set_retention o admin id days s).1

  unfoldable pub run : List (Call U) → Server S → Server S
  run [] s = s
  run (c ∷ cs) s = run cs (step c s)
