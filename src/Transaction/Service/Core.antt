-- ===== src/Transaction/Service/Core.antt =====
-- service.hpp and logging/business_log.hpp: callers, requests, business events, the options and the
-- state of the service, and the monad of its operations: CFD_TRY returns early and keeps the state.
use ot_sec_file_transfer.Base.{
  ℕ, Bool, true, false, List, [], ◌∷◌, ◌++◌, Option, none, some, if◌then◌else◌, Text, codes, same,
  Result, ok, err, Void, notfound, or_fail,
}
use ot_sec_file_transfer.Base.Int.{ℤ}
use ot_sec_file_transfer.Storage.Interface.{FileStore}
use ot_sec_file_transfer.Transaction.Types.{Transaction}
use ot_sec_file_transfer.Transaction.Repository.{Repo, Codec, find}

pub record Caller : Type 0 where
  pub name : Text
  pub is_peer : Bool
  pub is_admin : Bool

pub record CreateRequest : Type 0 where
  pub target_user : Text
  pub target_server : Text
  pub retention_days : ℤ
  pub comment : Text

pub record ReceiveRequest : Type 0 where
  pub id : Text
  pub sender : Text
  pub target_user : Text
  pub created_at : ℕ
  pub expires_at : ℕ
  pub comment : Text

pub data BizEventType : Type 0 where
  tx_created file_added file_removed committed forwarded received downloaded expired : BizEventType
  admin_deleted retention_changed sessions_revoked : BizEventType

pub record BizEvent : Type 0 where
  pub type : BizEventType
  pub tx : Option Text
  pub actor : Text
  pub subject : Text
  pub from_user : Text
  pub to_user : Text
  pub to_server : Text
  pub file : Option Text
  pub size : Option ℕ
  pub sha256 : Option (List ℕ)
  pub file_count : Option ℕ
  pub total_bytes : Option ℕ
  pub retention_days : Option ℤ

-- `ServiceOptions` with the file store and the codec. A `std::function` that may be empty is an
-- `Option`; of `on_committed` it matters whether it is set, since its calls are kept in `handed`.
pub record Service (S U D : Type 0) : Type 0 where
  pub store : FileStore S U D
  pub codec : Codec
  pub local_server : Text
  pub default_retention_days : ℤ
  pub max_retention_days : ℤ
  pub max_comment_length : ℕ
  pub check_destination : Option (Text → Text → Void)
  pub is_recipient : Option (Text → Text → Bool)
  pub has_commit_hook : Bool

-- The repository, the business log and the calls of `on_committed` (both newest first), and the ids
-- that have a mutex in `locks_`.
pub record Server (S : Type 0) : Type 0 where
  pub repo : Repo S
  pub open repo use *
  pub log : List BizEvent
  pub handed : List Transaction
  pub locks : List Text

abbrev pub M : Type 0 → Type 0 → Type 0
M S A = Server S → Result A × Server S

abbrev pub resume : {S A B : Type 0} → Result A × Server S → (A → M S B) → Result B × Server S
resume (ok a, s) f = f a s
resume (err e, s) f = (err e, s)

infixl 5 ◌>>=◌ ◌>>◌
abbrev pub ◌>>=◌ : {S A B : Type 0} → M S A → (A → M S B) → M S B
◌>>=◌ m f s = resume (m s) f

abbrev pub ◌>>◌ : {S B : Type 0} → M S (Unit {0}) → M S B → M S B
◌>>◌ m k = ◌>>=◌ m (λ _. k)

abbrev pub lift : {S A : Type 0} → Result A → M S A
lift r s = (r, s)

abbrev pub in_repo : {S : Type 0} → (Repo S → Void × Repo S) → M S (Unit {0})
in_repo m s = ((m s.repo).0, record s { repo = (m s.repo).1 })

abbrev pub on_disk : {S A : Type 0} → (S → Result A × S) → M S A
on_disk m s = ((m s.disk).0, record s { repo = record { index = s.index; disk = (m s.disk).1 } })

abbrev pub read_disk : {S A : Type 0} → (S → Result A) → M S A
read_disk m s = (m s.disk, s)

abbrev pub find_or_fail : {S : Type 0} → Text → M S Transaction
find_or_fail id s = (or_fail (find id s.repo) notfound, s)

abbrev pub record_event : {S : Type 0} → BizEvent → M S (Unit {0})
record_event ev s = (ok tt, record s { log = ev ∷ s.log })

has_lock : Text → List Text → Bool
has_lock id [] = false
has_lock id (k ∷ locks) = if same k id then true else has_lock id locks

drop_lock : Text → List Text → List Text
drop_lock id [] = []
drop_lock id (k ∷ locks) = if same k id then drop_lock id locks else k ∷ drop_lock id locks

-- `lock_for`: the mutex of a transaction, created on first use. The operations below hold it, so
-- each of them is one step.
unfoldable pub lock_for : {S : Type 0} → Text → M S (Unit {0})
unfolding has_lock
lock_for id s = (ok tt, record s { locks = if has_lock id s.locks then s.locks else id ∷ s.locks })

-- `locks_.erase(id)`.
unfoldable pub erase_lock : {S : Type 0} → Text → M S (Unit {0})
unfolding drop_lock
erase_lock id s = (ok tt, record s { locks = drop_lock id s.locks })

actor_of : Caller → Text
actor_of caller = if caller.is_peer then codes "peer:" ++ caller.name else caller.name

unfoldable pub event_for : BizEventType → Transaction → Caller → BizEvent
unfolding actor_of
event_for type tx caller = record {
  type = type;
  tx = some tx.id;
  actor = actor_of caller;
  subject = [];
  from_user = tx.sender;
  to_user = tx.target_user;
  to_server = tx.target_server;
  file = none;
  size = none;
  sha256 = none;
  file_count = none;
  total_bytes = none;
  retention_days = none;
}

-- The `system` caller of `mark_delivered` and `expire`.
abbrev pub system : Caller
system = record { name = codes "system"; is_peer = false; is_admin = false }
