-- ===== src/Transaction/Service/History/Sealing.antt =====
-- After the commit nothing in a transaction can change but its state, its expiry and the time of
-- its delivery, and its state only moves forward.
use mathlib.Core.Path.{subst₂}
use ot_sec_file_transfer.Base.{
  ℕ, ◌≤◌, ◌≡◌, ◌≢◌, true, ◌⊎◌, inl, inr, List, [], ◌∷◌, some, arith, Text, Dict, same, same_iff,
  lookup, lookup-put, lookup-erase, Bool-cases,
}
use ot_sec_file_transfer.Transaction.Types.{
  Transaction, State, open_, committed, delivered, expired,
}
use ot_sec_file_transfer.Transaction.States.{can_transition}
use ot_sec_file_transfer.Transaction.Service.Core.{Service, Server}
use ot_sec_file_transfer.Transaction.Service.History.{Call, step, run}
use ot_sec_file_transfer.Transaction.Service.History.Changes.{
  Change, kept, added, edited, dropped, Edit, upload, unlink, seal, deliver, expire, retain, Inv,
}
use ot_sec_file_transfer.Transaction.Service.History.Steps.{step-Change, step-Inv}

-- The same transaction, but for what may still change after a commit.
pub record Sealed (tx tx' : Transaction) : Type 0 where
  pub id : tx'.id ≡ tx.id
  pub sender : tx'.sender ≡ tx.sender
  pub target_user : tx'.target_user ≡ tx.target_user
  pub target_server : tx'.target_server ≡ tx.target_server
  pub origin_server : tx'.origin_server ≡ tx.origin_server
  pub comment : tx'.comment ≡ tx.comment
  pub created_at : tx'.created_at ≡ tx.created_at
  pub committed_at : tx'.committed_at ≡ tx.committed_at
  pub files : tx'.files ≡ tx.files

-- The order of the states.
abbrev pub rank : State → ℕ
rank open_ = 0
rank committed = 1
rank delivered = 2
rank expired = 3

Sealed-trans : (a b c : Transaction) → Sealed a b → Sealed b c → Sealed a c
Sealed-trans a b c p q = ground arith

Sealed-refl : (a : Transaction) → Sealed a a
Sealed-refl a = ground arith

Edit-Sealed : (tx tx' : Transaction) → Edit tx tx' → tx.state ≢ open_ → Sealed tx tx'
Edit-Sealed tx tx' (upload entry h e) c = absurd (c h)
Edit-Sealed tx tx' (unlink path files h r e) c = absurd (c h)
Edit-Sealed tx tx' (seal now h e) c = absurd (c h)
Edit-Sealed tx tx' (deliver now h e) c = ground arith
Edit-Sealed tx tx' (expire h e) c = ground arith
Edit-Sealed tx tx' (retain t h l e) c = ground arith

Edit-state :
    (tx tx' : Transaction)
    → Edit tx tx'
    → (tx'.state ≡ tx.state) ⊎ (can_transition tx.state tx'.state ≡ true)
unfolding can_transition
Edit-state tx tx' (upload entry h e) = ground arith
Edit-state tx tx' (unlink path files h r e) = ground arith
Edit-state tx tx' (seal now h e) = ground arith
Edit-state tx tx' (deliver now h e) = ground arith
Edit-state tx tx' (expire h e) = ground arith
Edit-state tx tx' (retain t h l e) = ground arith

Change-edit :
    (m m' : Dict Transaction) (id : Text) (tx tx' : Transaction)
    → Change m m'
    → Inv m
    → lookup id m ≡ some tx
    → lookup id m' ≡ some tx'
    → (tx' ≡ tx) ⊎ Edit tx tx'
Change-edit m m' id tx tx' (kept e) v h h' = inl (ground arith)
Change-edit m m' id tx tx' (added new absent _ e) v h h' =
    inl (ground (arith, lookup-put new.id id new m, same_iff new.id id))
Change-edit m m' id tx tx' (edited k t t' found edit e) v h h' = elim (Bool-cases (same t.id id)) [
  | inl hit ↦ inr (
      subst₂ Edit (ground (arith, v k t found, same_iff t.id id))
        (ground (arith, lookup-put t.id id t' m)) edit)
  | inr miss ↦ inl (ground (arith, lookup-put t.id id t' m))
]
Change-edit m m' id tx tx' (dropped k t found e) v h h' = inl (ground (arith, lookup-erase k id m))

Edit-rank : (tx tx' : Transaction) → Edit tx tx' → rank tx.state ≤ rank tx'.state
Edit-rank tx tx' (upload entry h e) = ground arith
Edit-rank tx tx' (unlink path files h r e) = ground arith
Edit-rank tx tx' (seal now h e) = ground arith
Edit-rank tx tx' (deliver now h e) = ground arith
Edit-rank tx tx' (expire h e) = ground arith
Edit-rank tx tx' (retain t h l e) = ground arith

module _ {S U D : Type 0} (o : Service S U D) where
  -- From a well-formed index, one call moves the state of a transaction that is there before and
  -- after it along the state machine, or leaves it.
  pub step-can_transition :
      (c : Call U) (s : Server S) (id : Text) (tx tx' : Transaction)
      → Inv s.index
      → lookup id s.index ≡ some tx
      → lookup id (step o c s).index ≡ some tx'
      → (tx'.state ≡ tx.state) ⊎ (can_transition tx.state tx'.state ≡ true)
  step-can_transition c s id tx tx' v h h' =
      elim (Change-edit s.index (step o c s).index id tx tx' (step-Change o c s v) v h h') [
        | inl e ↦ inl (ground arith)
        | inr edit ↦ Edit-state tx tx' edit
      ]

  step-Sealed :
      (c : Call U) (s : Server S) (id : Text) (tx tx' : Transaction)
      → Inv s.index
      → lookup id s.index ≡ some tx
      → lookup id (step o c s).index ≡ some tx'
      → tx.state ≢ open_
      → Sealed tx tx' × (rank tx.state ≤ rank tx'.state)
  step-Sealed c s id tx tx' v h h' closed =
      elim (Change-edit s.index (step o c s).index id tx tx' (step-Change o c s v) v h h') [
        | inl e ↦ (ground arith, ground arith)
        | inr edit ↦ (Edit-Sealed tx tx' edit closed, Edit-rank tx tx' edit)
      ]

  -- The transaction is not deleted on the way. (A peer may push a deleted id again.)
  abbrev pub Stays : Text → List (Call U) → Server S → Type 0
  Stays id [] s = Unit {0}
  Stays id (c ∷ cs) s =
      ((tx : Transaction) × (lookup id (step o c s).index ≡ some tx)) × Stays id cs (step o c s)

  -- From a well-formed index, a transaction that is no longer open and that stays in the index
  -- after each of the calls keeps its id, its parties, its comment, its files and its times of
  -- creation and commit, and its state never goes back.
  pub run-Sealed :
      (cs : List (Call U)) (s : Server S) (id : Text) (tx tx' : Transaction)
      → Inv s.index
      → lookup id s.index ≡ some tx
      → tx.state ≢ open_
      → Stays id cs s
      → lookup id (run o cs s).index ≡ some tx'
      → Sealed tx tx' × (rank tx.state ≤ rank tx'.state)
  unfolding run
  run-Sealed [] s id tx tx' v h closed stays h' = (ground arith, ground arith)
  run-Sealed (c ∷ cs) s id tx tx' v h closed ((mid, there), stays) h' =
      let (one, up) = step-Sealed c s id tx mid v h there closed in
      let open_mid : mid.state ≢ open_ = λ e. ground arith in
      let (more, further) =
        run-Sealed cs (step o c s) id mid tx' (step-Inv o c s v) there open_mid stays h' in
      (Sealed-trans tx mid tx' one more, omega arith)
