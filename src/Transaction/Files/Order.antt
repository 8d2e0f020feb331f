-- ===== src/Transaction/Files/Order.antt =====
-- The file list stays sorted by path, without duplicates, so that the binary search finds an entry
-- exactly where a linear search would.
use ot_sec_file_transfer.Base.{
  ◌≡◌, refl, true, List, [], ◌∷◌, Option, none, some, arith, if◌then◌else◌, Text, same, precedes,
  Every, same_iff, precedes_irrefl, precedes_trans, precedes_total, Option-cases, inl, inr,
}
use ot_sec_file_transfer.Transaction.Types.{FileEntry}
use ot_sec_file_transfer.Transaction.Files.{find_file, upsert_file, remove_entry}

-- Strictly increasing paths.
abbrev pub IsSorted : List FileEntry → Type 0
IsSorted [] = Unit {0}
IsSorted (f ∷ files) = Every (λ g. precedes f.path g.path ≡ true) files × IsSorted files

-- The specification of a lookup: the first entry of that path, by linear search.
unfoldable pub entry_of_path : List FileEntry → Text → Option FileEntry
entry_of_path [] path = none
entry_of_path (f ∷ files) path = if same f.path path then some f else entry_of_path files path

Every-precedes :
    (a b : Text) (files : List FileEntry)
    → precedes a b ≡ true
    → Every (λ g. precedes b g.path ≡ true) files
    → Every (λ g. precedes a g.path ≡ true) files
Every-precedes a b [] h k = tt
Every-precedes a b (g ∷ files) h k =
    (precedes_trans a b g.path h k.0, Every-precedes a b files h k.1)

-- Past an entry that comes after `path` there is no entry of that path.
entry_of_path_above :
    (path : Text) (files : List FileEntry)
    → Every (λ g. precedes path g.path ≡ true) files
    → entry_of_path files path ≡ none
unfolding entry_of_path
entry_of_path_above path [] h = refl
entry_of_path_above path (g ∷ files) h =
    ground (arith, same_iff g.path path, precedes_irrefl path, entry_of_path_above path files h.1)

-- In a sorted list, the binary search finds an entry exactly as a linear search does.
pub find_file-entry_of_path :
    (files : List FileEntry) (path : Text)
    → IsSorted files
    → find_file files path ≡ entry_of_path files path
unfolding find_file entry_of_path
find_file-entry_of_path [] path h = refl
find_file-entry_of_path (f ∷ files) path h = ground (
  arith,
  find_file-entry_of_path files path h.1,
  same_iff f.path path,
  precedes_irrefl path,
  precedes_total f.path path,
  entry_of_path_above path files,
  Every-precedes path f.path files,
)

Every-upsert_file :
    (a : Text) (files : List FileEntry) (entry : FileEntry)
    → precedes a entry.path ≡ true
    → Every (λ g. precedes a g.path ≡ true) files
    → Every (λ g. precedes a g.path ≡ true) (upsert_file files entry)
unfolding upsert_file
Every-upsert_file a [] entry h k = (h, tt)
Every-upsert_file a (f ∷ files) entry h k = ground (arith, Every-upsert_file a files entry h k.1)

pub upsert_file-IsSorted :
    (files : List FileEntry) (entry : FileEntry)
    → IsSorted files
    → IsSorted (upsert_file files entry)
unfolding upsert_file
upsert_file-IsSorted [] entry h = (tt, tt)
upsert_file-IsSorted (f ∷ files) entry h = ground (
  arith,
  upsert_file-IsSorted files entry h.1,
  Every-upsert_file f.path files entry,
  Every-precedes entry.path f.path files,
  precedes_total f.path entry.path,
  same_iff f.path entry.path,
)

-- After an insertion into a sorted list, its path has the new entry, and every other path what it
-- had.
pub entry_of_path-upsert_file :
    (files : List FileEntry) (entry : FileEntry) (path : Text)
    → IsSorted files
    → entry_of_path (upsert_file files entry) path
      ≡ (if same entry.path path then some entry else entry_of_path files path)
unfolding upsert_file entry_of_path
entry_of_path-upsert_file [] entry path h = refl
entry_of_path-upsert_file (f ∷ files) entry path h = ground (
  arith,
  entry_of_path-upsert_file files entry path h.1,
  same_iff entry.path path,
  same_iff f.path path,
  same_iff f.path entry.path,
  precedes_irrefl f.path,
)

-- Removal succeeds exactly where there is an entry, and the rest keeps its order.
Every-remove_entry :
    (a : Text) (files rest : List FileEntry) (path : Text)
    → remove_entry files path ≡ some rest
    → Every (λ g. precedes a g.path ≡ true) files
    → Every (λ g. precedes a g.path ≡ true) rest
unfolding remove_entry
Every-remove_entry a [] rest path e k = cc
Every-remove_entry a (f ∷ files) rest path e k = elim (Option-cases (remove_entry files path)) [
  | inl n ↦ ground arith
  | inr (r, n) ↦ ground (arith, Every-remove_entry a files r path n k.1)
]

pub remove_entry-IsSorted :
    (files rest : List FileEntry) (path : Text)
    → remove_entry files path ≡ some rest
    → IsSorted files
    → IsSorted rest
unfolding remove_entry
remove_entry-IsSorted [] rest path e h = cc
remove_entry-IsSorted (f ∷ files) rest path e h = elim (Option-cases (remove_entry files path)) [
  | inl n ↦ ground arith
  | inr (r, n) ↦ ground (
    arith,
    remove_entry-IsSorted files r path n h.1,
    Every-remove_entry f.path files r path n h.0,
  )
]

-- After a removal from a sorted list, its path has no entry, and every other path what it had.
pub entry_of_path-remove_entry :
    (files rest : List FileEntry) (path other : Text)
    → remove_entry files path ≡ some rest
    → IsSorted files
    → entry_of_path rest other ≡ (if same path other then none else entry_of_path files other)
unfolding remove_entry entry_of_path
entry_of_path-remove_entry [] rest path other e h = cc
entry_of_path-remove_entry (f ∷ files) rest path other e h =
    elim (Option-cases (remove_entry files path)) [
      | inl n ↦ ground (
        arith,
        same_iff f.path path,
        same_iff f.path other,
        same_iff path other,
        entry_of_path_above f.path files h.0,
      )
      | inr (r, n) ↦ ground (
        arith,
        entry_of_path-remove_entry files r path other n h.1,
        same_iff f.path path,
        same_iff f.path other,
        same_iff path other,
        entry_of_path_above f.path files h.0,
      )
    ]

pub remove_entry-eq-none :
    (files : List FileEntry) (path : Text)
    → remove_entry files path ≡ none
    → entry_of_path files path ≡ none
unfolding remove_entry entry_of_path
remove_entry-eq-none [] path e = refl
remove_entry-eq-none (f ∷ files) path e = ground (arith, remove_entry-eq-none files path)
