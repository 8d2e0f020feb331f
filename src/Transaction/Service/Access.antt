-- ===== src/Transaction/Service/Access.antt =====
-- service.cpp, lines 46 to 79: who may do what with a transaction.
use ot_sec_file_transfer.Base.{
  Bool, false, not, ◌&&◌, ◌||◌, Option, none, some, is_empty, Text, same,
}
use ot_sec_file_transfer.Transaction.Types.{Transaction, open_, committed, same_state}
use ot_sec_file_transfer.Transaction.Service.Core.{Caller}

unfoldable pub is_sender : Caller → Transaction → Bool
is_sender caller tx = not caller.is_peer && is_empty tx.origin_server && same caller.name tx.sender

abbrev pub belongs : Option (Text → Text → Bool) → Text → Text → Bool
belongs none user target = false
belongs (some is_recipient) user target = is_recipient user target

unfoldable pub is_target : Caller → Transaction → Option (Text → Text → Bool) → Bool
is_target caller tx is_recipient =
    not caller.is_peer
    && is_empty tx.target_server
    && (same caller.name tx.target_user || belongs is_recipient caller.name tx.target_user)

unfoldable pub is_origin_peer : Caller → Transaction → Bool
is_origin_peer caller tx =
    caller.is_peer && not (is_empty tx.origin_server) && same caller.name tx.origin_server

unfoldable pub may_write : Caller → Transaction → Bool
may_write caller tx = is_sender caller tx || is_origin_peer caller tx

unfoldable pub may_read : Caller → Transaction → Option (Text → Text → Bool) → Bool
may_read caller tx is_recipient =
    is_sender caller tx
    || is_origin_peer caller tx
    || (is_target caller tx is_recipient && not (same_state tx.state open_))

unfoldable pub is_outgoing : Transaction → Bool
is_outgoing tx =
    is_empty tx.origin_server && not (is_empty tx.target_server) && same_state tx.state committed
