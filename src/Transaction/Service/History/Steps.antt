-- ===== src/Transaction/Service/History/Steps.antt =====
-- Every call of the service is one `Change` of the index.
use mathlib.Core.Path.{subst}
use ot_sec_file_transfer.Base.{
  ℕ, ◌<◌, ◌≡◌, refl, sym, inl, inr, List, [], ◌∷◌, Option, arith, if◌then◌else◌, Text, erase-put,
  is_ok, ok, Bool-cases, Result-cases,
}
use ot_sec_file_transfer.Base.Int.{ℤ, pos, negsuc}
use ot_sec_file_transfer.Transaction.Types.{State, open_, committed, delivered, expired}
use ot_sec_file_transfer.Transaction.States.{check_transition, can_transition}
use ot_sec_file_transfer.Transaction.Service.Core.{
  Caller, CreateRequest, ReceiveRequest, BizEventType, Service, Server, system,
}
use ot_sec_file_transfer.Transaction.Service.Sending.{
  create, receive, create_checks, receive_checks, new_transaction, received_transaction, expires_at,
  is_zero,
}
use ot_sec_file_transfer.Transaction.Service.Sending.Effects.{
  create_failed, create_done, receive_failed, receive_done,
}
use ot_sec_file_transfer.Transaction.Service.Uploading.{PendingUpload, finish, remove_file}
use ot_sec_file_transfer.Transaction.Service.Uploading.Effects.{
  begin_upload-index, finish_failed, finish_done, remove_file_failed, remove_file_done,
}
use ot_sec_file_transfer.Transaction.Service.Committing.{commit, mark_delivered}
use ot_sec_file_transfer.Transaction.Service.Committing.Effects.{
  commit_failed, commit_done, mark_delivered_failed, mark_delivered_done,
}
use ot_sec_file_transfer.Transaction.Service.Removing.{destroy, expire, admin_delete, set_retention}
use ot_sec_file_transfer.Transaction.Service.Removing.Effects.{
  destroy_failed, destroy_done, admin_delete_granted, set_retention_failed, set_retention_done,
}
use ot_sec_file_transfer.Transaction.Service.History.{
  Call, creates, receives, begins, finishes, unlinks, commits, delivers, expires, deletes, retains,
  step, run,
}
use ot_sec_file_transfer.Transaction.Service.History.Changes.{
  Change, kept, added, edited, dropped, upload, unlink, seal, deliver, expire as lapse, retain, Inv,
  Change-Inv,
}

pub expires_at_later : (created t : ℕ) (days : ℤ) → expires_at created days ≡ ok t → created < t
unfolding expires_at
expires_at_later created t (pos days) h = ground arith
expires_at_later created t (negsuc n) h = cc

pub open_of_check : (st : State) → check_transition st committed ≡ ok tt → st ≡ open_
unfolding check_transition can_transition
open_of_check st h = ground arith

pub committed_of_check : (st : State) → check_transition st delivered ≡ ok tt → st ≡ committed
unfolding check_transition can_transition
committed_of_check st h = ground arith

module _ {S U D : Type 0} (o : Service S U D) where
  create_checks_later :
      (caller : Caller) (req : CreateRequest) (server : Text) (now t : ℕ)
      → create_checks o caller req server now ≡ ok t
      → now < t
  unfolding create_checks
  create_checks_later caller req server now t h =
      let days =
        if is_zero req.retention_days then o.default_retention_days else req.retention_days in
      ground (arith, expires_at_later now t days)

  receive_checks_later :
      (peer : Caller) (req : ReceiveRequest)
      → receive_checks o peer req ≡ ok tt
      → req.created_at < req.expires_at
  unfolding receive_checks
  receive_checks_later peer req h = ground arith

  create-Change :
      (caller : Caller) (req : CreateRequest) (id : Text) (now : ℕ) (s : Server S)
      → Change s.index (create o caller req id now s).1.index
  unfolding new_transaction
  create-Change caller req id now s = elim (Result-cases (create o caller req id now s).0) [
    | inl failed ↦ kept (create_failed o caller req id now s failed).0
    | inr (tx, done) ↦
        let (t, checks, shape, absent, index, _) = create_done o caller req id now s tx done in
        let later = create_checks_later caller req _ now t checks in
        added tx (ground arith) (ground arith) (ground arith)
  ]

  receive-Change :
      (peer : Caller) (req : ReceiveRequest) (s : Server S)
      → Change s.index (receive o peer req s).1.index
  unfolding received_transaction
  receive-Change peer req s = elim (Result-cases (receive o peer req s).0) [
    | inl failed ↦ kept (receive_failed o peer req s failed).0
    | inr (tx, done) ↦
        let (checks, shape, absent, index, _) = receive_done o peer req s tx done in
        let later = receive_checks_later peer req checks in
        added tx (ground arith) (ground arith) (ground arith)
  ]

  finish-Change :
      (p : PendingUpload U) (expected : Option (List ℕ)) (s : Server S)
      → Change s.index (finish o p expected s).1.index
  finish-Change p expected s = elim (Result-cases (finish o p expected s).0) [
    | inl failed ↦ kept (finish_failed o p expected s failed).0
    | inr (entry, done) ↦
        let (tx, found, mutable_, index, _) = finish_done o p expected s entry done in
        edited p.id tx _ found (upload entry mutable_ refl) index
  ]

  remove_file-Change :
      (caller : Caller) (id path : Text) (s : Server S)
      → Change s.index (remove_file o caller id path s).1.index
  remove_file-Change caller id path s =
      elim (Bool-cases (is_ok (remove_file o caller id path s).0)) [
        | inl done ↦
            let (tx, files, found, mutable_, _, rest, index, _) =
              remove_file_done o caller id path s done in
            edited id tx _ found (unlink path files mutable_ rest refl) index
        | inr failed ↦ kept (remove_file_failed o caller id path s failed).0
      ]

  commit-Change :
      (caller : Caller) (id : Text) (now : ℕ) (s : Server S)
      → Change s.index (commit o caller id now s).1.index
  commit-Change caller id now s = elim (Result-cases (commit o caller id now s).0) [
    | inl failed ↦ kept (commit_failed o caller id now s failed).0
    | inr (tx', done) ↦
        let (tx, found, _, allowed, _, shape, index, _, _) =
          commit_done o caller id now s tx' done in
        edited id tx tx' found (seal now (open_of_check tx.state allowed) shape) index
  ]

  mark_delivered-Change :
      (id : Text) (now : ℕ) (s : Server S) → Change s.index (mark_delivered o id now s).1.index
  mark_delivered-Change id now s = elim (Bool-cases (is_ok (mark_delivered o id now s).0)) [
    | inl done ↦
        let (tx, found, allowed, index) = mark_delivered_done o id now s done in
        edited id tx _ found (deliver now (committed_of_check tx.state allowed) refl) index
    | inr failed ↦ kept (mark_delivered_failed o id now s failed).0
  ]

  destroy-Change :
      (id : Text) (type : BizEventType) (actor : Caller) (s : Server S)
      → Inv s.index
      → Change s.index (destroy o id type actor s).1.index
  destroy-Change id type actor s v = elim (Bool-cases (is_ok (destroy o id type actor s).0)) [
    | inl done ↦
        let (tx, found, _, index) = destroy_done o id type actor s done in
        dropped id tx found (
          ground
            (arith, v id tx found, erase-put id (record tx { state = expired }) s.index, index))
    | inr failed ↦
        let (_, how) = destroy_failed o id type actor s failed in
        elim how [
          | inl e ↦ kept e
          | inr (tx, found, alive, e) ↦ edited id tx _ found (lapse alive refl) e
        ]
  ]

  set_retention-Change :
      (admin : Caller) (id : Text) (days : ℤ) (s : Server S)
      → Change s.index (set_retention o admin id days s).1.index
  set_retention-Change admin id days s = elim (Result-cases (set_retention o admin id days s).0) [
    | inl failed ↦ kept (set_retention_failed o admin id days s failed).0
    | inr (tx', done) ↦
        let (tx, t, found, _, _, alive, expiry, shape, index, _) =
          set_retention_done o admin id days s tx' done in
        edited id tx tx' found (retain t alive (expires_at_later tx.created_at t days expiry) shape)
          index
  ]

  admin_delete-Change :
      (admin : Caller) (id : Text) (s : Server S)
      → Inv s.index
      → Change s.index (admin_delete o admin id s).1.index
  unfolding admin_delete
  admin_delete-Change admin id s v = elim (Bool-cases admin.is_admin) [
    | inl granted ↦
        subst (λ p. Change s.index p.1.index) (sym (admin_delete_granted o admin id s granted))
          (destroy-Change id BizEventType.admin_deleted admin s v)
    | inr denied ↦ kept (ground arith)
  ]

  pub step-Change : (c : Call U) (s : Server S) → Inv s.index → Change s.index (step o c s).index
  unfolding step expire
  step-Change (creates caller req id now) s v = create-Change caller req id now s
  step-Change (receives peer req) s v = receive-Change peer req s
  step-Change (begins caller id path) s v = kept (begin_upload-index o caller id path s)
  step-Change (finishes p expected) s v = finish-Change p expected s
  step-Change (unlinks caller id path) s v = remove_file-Change caller id path s
  step-Change (commits caller id now) s v = commit-Change caller id now s
  step-Change (delivers id now) s v = mark_delivered-Change id now s
  step-Change (expires id) s v = destroy-Change id BizEventType.expired system s v
  step-Change (deletes admin id) s v = admin_delete-Change admin id s v
  step-Change (retains admin id days) s v = set_retention-Change admin id days s

  pub step-Inv : (c : Call U) (s : Server S) → Inv s.index → Inv (step o c s).index
  step-Inv c s v = Change-Inv s.index (step o c s).index (step-Change c s v) v

  -- If at the start every transaction stands under its id and is well formed, that is so after any
  -- sequence of calls: its files are sorted without duplicates, it expires after its creation, and
  -- it has the times of commit and delivery that its state comes with.
  pub run-Inv : (cs : List (Call U)) (s : Server S) → Inv s.index → Inv (run o cs s).index
  unfolding run
  run-Inv [] s v = v
  run-Inv (c ∷ cs) s v = run-Inv cs (step o c s) (step-Inv c s v)
