-- ===== src/Transaction/Service/Reading.antt =====
-- service.cpp: the operations that change nothing. They are `const` and take no transaction lock.
pub mod Permissions
pub mod Ordering
use ot_sec_file_transfer.Base.{
  ℕ, Bool, true, false, not, ◌&&◌, ◌||◌, List, [], ◌∷◌, Option, none, some, ltb, leb, ◌==◌,
  if◌then◌else◌, is_empty, Text, same, precedes, Result, ok, ◌>>=◌, ◌>>◌, forbidden, notfound,
  conflict, fail_if, or_fail,
}
use ot_sec_file_transfer.Base.Sort.{sort}
use ot_sec_file_transfer.Transaction.Types.{Transaction, committed, delivered, same_state, State}
use ot_sec_file_transfer.Transaction.States.{require_readable}
use ot_sec_file_transfer.Transaction.Files.{find_file}
use ot_sec_file_transfer.Transaction.Repository.{find, find_if}
use ot_sec_file_transfer.Transaction.Service.Core.{Caller, Service, Server}
use ot_sec_file_transfer.Transaction.Service.Access.{may_read, is_sender, is_target, is_outgoing}

pub data Box : Type 0 where
  in_ out : Box

pub record AdminFilter : Type 0 where
  pub user : Text
  pub state : Option State
  pub from : Option ℕ
  pub to : Option ℕ

-- The comparators of the three sorts.
unfoldable pub newer : Transaction → Transaction → Bool
newer a b =
    if a.created_at == b.created_at then precedes a.id b.id else ltb b.created_at a.created_at

-- `operator<` of `std::optional`: nothing comes before any value.
abbrev pub earlier : Option ℕ → Option ℕ → Bool
earlier none none = false
earlier none (some b) = true
earlier (some a) none = false
earlier (some a) (some b) = ltb a b

abbrev pub same_time : Option ℕ → Option ℕ → Bool
same_time none none = true
same_time (some a) (some b) = a == b
same_time _ _ = false

unfoldable pub committed_before : Transaction → Transaction → Bool
committed_before a b =
    if same_time a.committed_at b.committed_at
    then precedes a.id b.id
    else earlier a.committed_at b.committed_at

unfoldable pub ids : List Transaction → List Text
ids [] = []
ids (tx ∷ txs) = tx.id ∷ ids txs

unfoldable pub is_expired : ℕ → ℕ → Bool
is_expired expiry now = leb expiry now

abbrev pub matches_state : Option State → State → Bool
matches_state none state = true
matches_state (some wanted) state = same_state state wanted

abbrev pub not_before : Option ℕ → ℕ → Bool
not_before none t = true
not_before (some from) t = leb from t

abbrev pub strictly_before : Option ℕ → ℕ → Bool
strictly_before none t = true
strictly_before (some to) t = ltb t to

unfoldable pub matches : AdminFilter → Transaction → Bool
matches f tx =
    (is_empty f.user || same tx.sender f.user || same tx.target_user f.user)
    && (matches_state f.state tx.state
        && (not_before f.from tx.created_at && strictly_before f.to tx.created_at))

module _ {S U D : Type 0} (o : Service S U D) where
  unfoldable pub get : Caller → Text → Server S → Result Transaction
  get caller id s = do
    tx ← or_fail (find id s.repo) notfound
    fail_if (not (may_read caller tx o.is_recipient)) forbidden
    ok tx

  -- What `list` keeps for each box.
  unfoldable pub in_box : Caller → Box → Transaction → Bool
  in_box caller out tx = is_sender caller tx
  in_box caller in_ tx =
      is_target caller tx o.is_recipient
      && (same_state tx.state committed || same_state tx.state delivered)

  unfoldable pub list : Caller → Box → Server S → List Transaction
  unfolding in_box
  list caller box s =
      if caller.is_peer then [] else sort newer (find_if (in_box caller box) s.index)

  unfoldable pub open_download : Caller → Text → Text → Server S → Result D
  open_download caller id path s = do
    tx ← or_fail (find id s.repo) notfound
    fail_if (not (may_read caller tx o.is_recipient)) forbidden
    require_readable tx.state
    _ ← or_fail (find_file tx.files path) notfound
    o.store.open_read id path s.disk

module _ {S : Type 0} where
  unfoldable pub list_outgoing : Server S → List Text
  unfolding ids
  list_outgoing s = ids (sort committed_before (find_if is_outgoing s.index))

  unfoldable pub outgoing : Text → Server S → Result Transaction
  outgoing id s = do
    tx ← or_fail (find id s.repo) notfound
    fail_if (not (is_outgoing tx)) conflict
    ok tx

  unfoldable pub list_expired : ℕ → Server S → List Text
  unfolding ids is_expired
  list_expired now s = ids (find_if (λ tx. is_expired tx.expires_at now) s.index)

  unfoldable pub admin_list : Caller → AdminFilter → Server S → List Transaction
  admin_list admin filter s =
      if admin.is_admin then sort newer (find_if (matches filter) s.index) else []

  unfoldable pub admin_get : Caller → Text → Server S → Result Transaction
  admin_get admin id s = do
    fail_if (not admin.is_admin) forbidden
    or_fail (find id s.repo) notfound
