-- ===== src/Transaction/Files.antt =====
-- The file list of a transaction: `Transaction::find_file` (transaction.cpp), `upsert_file`, and the
-- removal by `std::ranges::find` and `erase` (service.cpp).
pub mod Order
use ot_sec_file_transfer.Base.{
  ◌≡◌, refl, Bool, true, false, List, [], ◌∷◌, Option, none, some, arith, if◌then◌else◌, Text, same,
  precedes,
}
use ot_sec_file_transfer.Transaction.Types.{FileEntry, Transaction}

-- `std::ranges::lower_bound` by path: the suffix that starts at the first entry not before `path`.
unfoldable pub lower_bound : List FileEntry → Text → List FileEntry
lower_bound [] path = []
lower_bound (f ∷ files) path = if precedes f.path path then lower_bound files path else f ∷ files

entry_at : List FileEntry → Text → Option FileEntry
entry_at [] path = none
entry_at (f ∷ files) path = if same f.path path then some f else none

unfoldable pub find_file : List FileEntry → Text → Option FileEntry
unfolding entry_at lower_bound
find_file files path = entry_at (lower_bound files path) path

-- The `if` of `upsert_file` at the iterator: overwrite an entry of the same path, else insert.
write_at : List FileEntry → FileEntry → List FileEntry
write_at [] entry = entry ∷ []
write_at (f ∷ files) entry = if same f.path entry.path then entry ∷ files else entry ∷ f ∷ files

unfoldable pub upsert_file : List FileEntry → FileEntry → List FileEntry
unfolding write_at
upsert_file [] entry = write_at [] entry
upsert_file (f ∷ files) entry =
    if precedes f.path entry.path then f ∷ upsert_file files entry else write_at (f ∷ files) entry

-- `std::ranges::find(files, path, &FileEntry::path)` followed by `erase(it)`; `none` is `end()`.
unfoldable pub remove_entry : List FileEntry → Text → Option (List FileEntry)
remove_entry [] path = none
remove_entry (f ∷ files) path =
    if same f.path path
    then some files
    else elim (remove_entry files path) [ none ↦ none | some rest ↦ some (f ∷ rest) ]
