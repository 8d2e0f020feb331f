-- ===== src/Transaction/Service/Sending.antt =====
-- service.cpp: the operations of a sender and of a pushing peer. The time read from the clock and
-- the id that `TransactionId::generate` returns are arguments.
pub mod Effects
use ot_sec_file_transfer.Base.{
  ℕ, ◌+◌, ◌*◌, ◌%◌, ◌^◌, ◌≡◌, refl, Bool, true, false, not, ◌&&◌, ◌||◌, List, [], ◌∷◌, Option, none,
  some, arith, ltb, leb, ◌==◌, if◌then◌else◌, is_empty, length, Text, same, Result, ok, err, Void,
  validation, forbidden, integrity, notfound, fail_if, or_fail,
}
use ot_sec_file_transfer.Base
use ot_sec_file_transfer.Base.Int.{ℤ, pos, negsuc, ltb_ℤ}
use ot_sec_file_transfer.Storage.Interface.{FileStore, StoredFile}
use ot_sec_file_transfer.Transaction.Types.{
  Transaction, FileEntry, open_, State, check_comment, total_bytes,
}
use ot_sec_file_transfer.Transaction.States.{check_transition, require_mutable}
use ot_sec_file_transfer.Transaction.Files.{upsert_file, remove_entry}
use ot_sec_file_transfer.Transaction.Repository.{Repo, insert, save, save_manifest, find}
use ot_sec_file_transfer.Transaction.Service.Core.{
  Caller, CreateRequest, ReceiveRequest, BizEventType, Service, Server, M, ◌>>=◌, ◌>>◌, resume,
  lift, in_repo, on_disk, read_disk, find_or_fail, record_event, lock_for, event_for,
}
use ot_sec_file_transfer.Transaction.Service.Access.{may_write, is_origin_peer}

abbrev pub seconds_per_day : ℕ
seconds_per_day = 86400

-- common/time.cpp; `kMaxRetentionDays` is 3650.
unfoldable pub expires_at : ℕ → ℤ → Result ℕ
expires_at created (negsuc n) = err validation
expires_at created (pos days) =
    if ltb days 1 || ltb 3650 days then err validation else ok (created + days * seconds_per_day)

abbrev pub is_zero : ℤ → Bool
is_zero (pos n) = n == 0
is_zero (negsuc n) = false

abbrev pub destination_known : Option (Text → Text → Void) → Text → Text → Void
destination_known none user server = ok tt
destination_known (some check) user server = check user server

module _ {S U D : Type 0} (o : Service S U D) where
  -- The guards of `create`, in order, up to the expiry time.
  unfoldable pub create_checks : Caller → CreateRequest → Text → ℕ → Result ℕ
  create_checks caller req target_server now = Base.◌>>=◌ (fail_if caller.is_peer forbidden) λ _.
      Base.◌>>=◌ (fail_if (is_empty req.target_user) validation) λ _.
        Base.◌>>=◌ (fail_if (ltb_ℤ req.retention_days (pos 0)) validation) λ _.
          Base.◌>>=◌ (fail_if (ltb_ℤ o.max_retention_days req.retention_days) validation) λ _.
            Base.◌>>=◌ (check_comment req.comment o.max_comment_length) λ _.
              Base.◌>>=◌ (destination_known o.check_destination req.target_user target_server) λ _.
                expires_at now (
                  if is_zero req.retention_days
                  then o.default_retention_days
                  else req.retention_days)

  unfoldable pub target_server_of : CreateRequest → Text
  target_server_of req =
      if is_empty req.target_server || same req.target_server o.local_server
      then []
      else req.target_server

  unfoldable pub new_transaction : Caller → CreateRequest → Text → ℕ → ℕ → Transaction
  unfolding target_server_of
  new_transaction caller req id now expires = record {
    id = id;
    sender = caller.name;
    target_user = req.target_user;
    target_server = target_server_of req;
    origin_server = [];
    comment = req.comment;
    state = open_;
    created_at = now;
    expires_at = expires;
    committed_at = none;
    delivered_at = none;
    files = [];
  }

  unfoldable pub create : Caller → CreateRequest → Text → ℕ → M S Transaction
  unfolding create_checks new_transaction
  create caller req id now = do
    expires ← lift (create_checks caller req (target_server_of req) now)
    let tx = new_transaction caller req id now expires
    in_repo (insert o.store o.codec tx)
    record_event (event_for BizEventType.tx_created tx caller)
    lift (ok tx)

  -- `receive`: a transaction that a peer pushes.
  unfoldable pub receive_checks : Caller → ReceiveRequest → Void
  receive_checks peer req = Base.◌>>=◌ (fail_if (not peer.is_peer) forbidden) λ _.
      Base.◌>>=◌ (fail_if (is_empty req.sender || is_empty req.target_user) validation) λ _.
        Base.◌>>=◌ (fail_if (leb req.expires_at req.created_at) validation) λ _.
          Base.◌>>=◌ (check_comment req.comment o.max_comment_length)
            λ _. destination_known o.check_destination req.target_user []

  unfoldable pub received_transaction : Caller → ReceiveRequest → Transaction
  received_transaction peer req = record {
    id = req.id;
    sender = req.sender;
    target_user = req.target_user;
    target_server = [];
    origin_server = peer.name;
    comment = req.comment;
    state = open_;
    created_at = req.created_at;
    expires_at = req.expires_at;
    committed_at = none;
    delivered_at = none;
    files = [];
  }

  unfoldable pub receive : Caller → ReceiveRequest → M S Transaction
  unfolding receive_checks received_transaction
  receive peer req = do
    lift (receive_checks peer req)
    lock_for req.id
    in_repo (insert o.store o.codec (received_transaction peer req))
    lift (ok (received_transaction peer req))
