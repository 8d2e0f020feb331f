-- ===== src/Transaction/States.antt =====
-- transaction/state_machine.cpp.
use ot_sec_file_transfer.Base.{Bool, false, ◌||◌, ok, err, Void, conflict, gone, if◌then◌else◌}
use ot_sec_file_transfer.Transaction.Types.{State, open_, committed, delivered, expired, same_state}

unfoldable pub can_transition : State → State → Bool
can_transition open_ to = same_state to committed || same_state to expired
can_transition committed to = same_state to delivered || same_state to expired
can_transition delivered to = same_state to expired
can_transition expired to = false

unfoldable pub check_transition : State → State → Void
check_transition from to =
    if can_transition from to
    then ok tt
    else (if same_state from expired then err gone else err conflict)

unfoldable pub require_mutable : State → Void
require_mutable open_ = ok tt
require_mutable committed = err conflict
require_mutable delivered = err conflict
require_mutable expired = err gone

unfoldable pub require_readable : State → Void
require_readable committed = ok tt
require_readable delivered = ok tt
require_readable open_ = err conflict
require_readable expired = err gone
