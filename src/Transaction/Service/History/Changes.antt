-- ===== src/Transaction/Service/History/Changes.antt =====
-- The kinds of change that an operation makes to the index, and the invariant that they keep.
use ot_sec_file_transfer.Base.{
  ℕ, ◌<◌, ◌≡◌, ◌≢◌, List, [], Option, none, some, arith, Text, Dict, same_iff, lookup, put, erase,
  lookup-put, lookup-erase,
}
use ot_sec_file_transfer.Transaction.Types.{
  Transaction, FileEntry, State, open_, committed, delivered, expired,
}
use ot_sec_file_transfer.Transaction.Files.{upsert_file, remove_entry}
use ot_sec_file_transfer.Transaction.Files.Order.{
  IsSorted, upsert_file-IsSorted, remove_entry-IsSorted,
}

-- What one operation does to one transaction.
pub data Edit (tx tx' : Transaction) : Type 0 where
  upload :
      (entry : FileEntry)
      → tx.state ≡ open_
      → tx' ≡ record tx { files = upsert_file tx.files entry }
      → Edit tx tx'
  unlink :
      (path : Text) (files : List FileEntry)
      → tx.state ≡ open_
      → remove_entry tx.files path ≡ some files
      → tx' ≡ record tx { files = files }
      → Edit tx tx'
  seal :
      (now : ℕ)
      → tx.state ≡ open_
      → tx' ≡ record tx { state = committed; committed_at = some now }
      → Edit tx tx'
  deliver :
      (now : ℕ)
      → tx.state ≡ committed
      → tx' ≡ record tx { state = delivered; delivered_at = some now }
      → Edit tx tx'
  expire : tx.state ≢ expired → tx' ≡ record tx { state = expired } → Edit tx tx'
  retain :
      (t : ℕ)
      → tx.state ≢ expired
      → tx.created_at < t
      → tx' ≡ record tx { expires_at = t }
      → Edit tx tx'

pub record IsNew (tx : Transaction) : Type 0 where
  pub state : tx.state ≡ open_
  pub files : tx.files ≡ []
  pub committed_at : tx.committed_at ≡ none
  pub delivered_at : tx.delivered_at ≡ none
  pub lasts : tx.created_at < tx.expires_at

pub data Change (m m' : Dict Transaction) : Type 0 where
  kept : m' ≡ m → Change m m'
  added : (tx : Transaction) → lookup tx.id m ≡ none → IsNew tx → m' ≡ put tx.id tx m → Change m m'
  edited :
      (id : Text) (tx tx' : Transaction)
      → lookup id m ≡ some tx
      → Edit tx tx'
      → m' ≡ put tx.id tx' m
      → Change m m'
  dropped : (id : Text) (tx : Transaction) → lookup id m ≡ some tx → m' ≡ erase id m → Change m m'

-- The times that a state comes with.
abbrev pub IsStamped : State → Option ℕ → Option ℕ → Type 0
IsStamped open_ c d = (c ≡ none) × (d ≡ none)
IsStamped committed c d = (c ≢ none) × (d ≡ none)
IsStamped delivered c d = (c ≢ none) × (d ≢ none)
IsStamped expired c d = Unit {0}

pub record IsValid (tx : Transaction) : Type 0 where
  pub sorted : IsSorted tx.files
  pub lasts : tx.created_at < tx.expires_at
  pub stamped : IsStamped tx.state tx.committed_at tx.delivered_at

-- Every transaction stands under its own id, and is well formed.
abbrev pub Inv : Dict Transaction → Type 0
Inv m = (id : Text) (tx : Transaction) → lookup id m ≡ some tx → (tx.id ≡ id) × IsValid tx

IsNew-IsValid : (tx : Transaction) → IsNew tx → IsValid tx
IsNew-IsValid tx n = ground arith

pub Edit-IsValid : (tx tx' : Transaction) → Edit tx tx' → IsValid tx → IsValid tx'
Edit-IsValid tx tx' (upload entry h e) v =
    ground (arith, upsert_file-IsSorted tx.files entry v.sorted)
Edit-IsValid tx tx' (unlink path files h r e) v =
    ground (arith, remove_entry-IsSorted tx.files files path r v.sorted)
Edit-IsValid tx tx' (seal now h e) v = ground arith
Edit-IsValid tx tx' (deliver now h e) v = ground arith
Edit-IsValid tx tx' (expire h e) v = ground arith
Edit-IsValid tx tx' (retain t h l e) v = ground arith

pub Edit-id : (tx tx' : Transaction) → Edit tx tx' → tx'.id ≡ tx.id
Edit-id tx tx' (upload entry h e) = ground arith
Edit-id tx tx' (unlink path files h r e) = ground arith
Edit-id tx tx' (seal now h e) = ground arith
Edit-id tx tx' (deliver now h e) = ground arith
Edit-id tx tx' (expire h e) = ground arith
Edit-id tx tx' (retain t h l e) = ground arith

pub Change-Inv : (m m' : Dict Transaction) → Change m m' → Inv m → Inv m'
Change-Inv m m' (kept e) v id t h = ground (arith, v id t)
Change-Inv m m' (added tx absent new e) v id t h =
    ground (arith, v id t, lookup-put tx.id id tx m, same_iff tx.id id, IsNew-IsValid tx new)
Change-Inv m m' (edited k tx tx' found edit e) v id t h = ground (
  arith,
  v id t,
  v k tx found,
  lookup-put tx.id id tx' m,
  same_iff tx.id id,
  Edit-id tx tx' edit,
  Edit-IsValid tx tx' edit,
)
Change-Inv m m' (dropped k tx found e) v id t h = ground (arith, v id t, lookup-erase k id m)
