-- ===== src/Transaction/Repository/Restart.antt =====
-- What the disk keeps of the index, and what `load` gets back from it.
use ot_sec_file_transfer.Base.{
  ◌≡◌, refl, Bool, true, false, not, ◌&&◌, ◌||◌, inl, inr, List, [], ◌∷◌, Option, Option-cases,
  none, some, arith, if◌then◌else◌, Text, Dict, lookup, same, same_iff, ok, is_ok, lookup-put,
  lookup-erase,
}
use ot_sec_file_transfer.Storage.Interface.{FileStore, Document, meta, manifest}
use ot_sec_file_transfer.Transaction.Types.{Transaction}
use ot_sec_file_transfer.Transaction.Repository.{
  Repo, Codec, insert, save, save_manifest, remove, load, load_all, emplace,
}

unfoldable pub same_document : Document → Document → Bool
same_document meta meta = true
same_document manifest manifest = true
same_document _ _ = false

-- storage/storage.hpp: a document is what was last written to it; a write that fails leaves it. A
-- write leaves the other document of the transaction and both of the others, and a transaction that
-- is created or removed leaves both documents of the others.
pub record KeepsDocuments {S U D : Type 0} (store : FileStore S U D) : Type 0 where
  pub read-write :
      (id : Text) (doc : Document) (text : Text) (disk : S)
      → is_ok (store.write_document id doc text disk).0 ≡ true
      → store.read_document id doc (store.write_document id doc text disk).1 ≡ ok text
  pub read-write_failed :
      (id : Text) (doc : Document) (text : Text) (disk : S)
      → is_ok (store.write_document id doc text disk).0 ≡ false
      → store.read_document id doc (store.write_document id doc text disk).1
        ≡ store.read_document id doc disk
  pub read-write_document :
      (id : Text) (doc kept : Document) (text : Text) (disk : S)
      → same_document doc kept ≡ false
      → store.read_document id kept (store.write_document id doc text disk).1
        ≡ store.read_document id kept disk
  pub read-write_other :
      (id other : Text) (doc kept : Document) (text : Text) (disk : S)
      → same id other ≡ false
      → store.read_document other kept (store.write_document id doc text disk).1
        ≡ store.read_document other kept disk
  pub read-create_other :
      (id other : Text) (kept : Document) (disk : S)
      → same id other ≡ false
      → store.read_document other kept (store.create_transaction id disk).1
        ≡ store.read_document other kept disk
  pub read-remove_other :
      (id other : Text) (kept : Document) (disk : S)
      → same id other ≡ false
      → store.read_document other kept (store.remove_transaction id disk).1
        ≡ store.read_document other kept disk

module _ {S U D : Type 0} (store : FileStore S U D) (codec : Codec) where
  -- The meta.json of an indexed transaction is its text.
  unfoldable pub IsSynced : Repo S → Type 0
  IsSynced r =
      (id : Text) (tx : Transaction)
      → lookup id r.index ≡ some tx
      → (same tx.id id ≡ true) × (store.read_document id meta r.disk ≡ ok (codec.encode_meta tx))

module _ {S U D : Type 0} (store : FileStore S U D) (codec : Codec) (k : KeepsDocuments store) where
  pub insert-IsSynced :
      (tx : Transaction) (r : Repo S)
      → IsSynced store codec r
      → IsSynced store codec (insert store codec tx r).1
  unfolding insert IsSynced
  insert-IsSynced tx r h id old e =
      let disk = (store.create_transaction tx.id r.disk).1 in
      let text = codec.encode_meta tx in
      let written = (store.write_document tx.id meta text disk).1 in
      ground (
        arith,
        h id old,
        lookup-put tx.id id tx r.index,
        same_iff tx.id id,
        k.read-create_other tx.id id meta r.disk,
        k.read-write tx.id meta text disk,
        k.read-write_other tx.id id meta meta text disk,
        k.read-remove_other tx.id id meta written,
      )

  pub save-IsSynced :
      (tx : Transaction) (r : Repo S)
      → IsSynced store codec r
      → IsSynced store codec (save store codec tx r).1
  unfolding save IsSynced
  save-IsSynced tx r h id old e = ground (
    arith,
    h id old,
    lookup-put tx.id id tx r.index,
    same_iff tx.id id,
    k.read-write tx.id meta (codec.encode_meta tx) r.disk,
    k.read-write_failed tx.id meta (codec.encode_meta tx) r.disk,
    k.read-write_other tx.id id meta meta (codec.encode_meta tx) r.disk,
  )

  pub save_manifest-IsSynced :
      (tx : Transaction) (r : Repo S)
      → IsSynced store codec r
      → IsSynced store codec (save_manifest store codec tx r).1
  unfolding save_manifest IsSynced same_document
  save_manifest-IsSynced tx r h id old e = ground (
    arith,
    h id old,
    same_iff tx.id id,
    k.read-write_document tx.id manifest meta (codec.encode_manifest tx) r.disk refl,
    k.read-write_other tx.id id manifest meta (codec.encode_manifest tx) r.disk,
  )

  pub remove-IsSynced :
      (id : Text) (r : Repo S)
      → IsSynced store codec r
      → is_ok (remove store codec id r).0 ≡ true
      → IsSynced store codec (remove store codec id r).1
  unfolding remove IsSynced
  remove-IsSynced id r h done other old e = ground (
    arith,
    h other old,
    lookup-erase id other r.index,
    same_iff id other,
    k.read-remove_other id other meta r.disk,
  )

unfoldable pub listed : Text → List Text → Bool
listed id [] = false
listed id (other ∷ ids) = same other id || listed id ids

abbrev pub is_some : Option Transaction → Bool
is_some none = false
is_some (some tx) = true

lookup-emplace :
    (id other : Text) (tx : Transaction) (m : Dict Transaction)
    → lookup other (emplace id tx m)
      ≡ (if same id other && not (is_some (lookup id m)) then some tx else lookup other m)
unfolding emplace
lookup-emplace id other tx m = ground (arith, lookup-put id other tx m)

abbrev either : Option Transaction → Option Transaction → Option Transaction
either (some tx) other = some tx
either none other = other

-- A repository before `load`.
abbrev pub restarted : {S : Type 0} → S → Repo S
restarted disk = record { index = []; disk = disk }

module _ {S U D : Type 0} (store : FileStore S U D) (codec : Codec) (start : S) where
  pub IsSynced-restarted : IsSynced store codec (restarted start)
  unfolding IsSynced lookup
  IsSynced-restarted id tx e = ground arith

module _ {S U D : Type 0} (store : FileStore S U D) (codec : Codec) (r : Repo S)
    (h : IsSynced store codec r)
    (readable : (id : Text) (tx : Transaction)
      → lookup id r.index ≡ some tx
      → codec.decode_meta (codec.encode_meta tx) ≡ ok tx) where
  load_all-restores :
      (ids : List Text) (loaded : Dict Transaction)
      → ((id : Text) → listed id ids ≡ true → is_some (lookup id r.index) ≡ true)
      → (m : Dict Transaction) × ((load_all store codec ids r.disk loaded ≡ ok m)
          × ((id : Text)
              → lookup id m
                ≡ either (lookup id loaded) (if listed id ids then lookup id r.index else none)))
  unfolding load_all listed IsSynced
  load_all-restores [] loaded known = (loaded, (refl, λ id. ground arith))
  load_all-restores (id ∷ ids) loaded known = elim (Option-cases (lookup id r.index)) [
    | inl e ↦ ground (arith, known id, same_iff id id)
    | inr (tx, e) ↦
        let (m, (ran, found)) =
          load_all-restores ids (emplace id tx loaded) (λ other l. ground (arith, known other)) in
        (
          m,
          (
            ground (arith, h id tx e, readable id tx e),
            λ other.
                ground (arith, found other, lookup-emplace id other tx loaded, same_iff id other),
          ),
        )
  ]

  pub load-restores :
      (ids : List Text)
      → store.list_transactions r.disk ≡ ok ids
      → ((id : Text) → listed id ids ≡ is_some (lookup id r.index))
      → ((load store codec (restarted r.disk)).0 ≡ ok tt)
        × ((id : Text)
            → lookup id (load store codec (restarted r.disk)).1.index ≡ lookup id r.index)
  unfolding load lookup
  load-restores ids e known =
      let (m, (ran, found)) = load_all-restores ids [] (λ id l. ground (arith, known id)) in
      (ground arith, λ id. ground (arith, found id, known id))
