-- ===== src/Transaction/Service/Reading/Ordering.antt =====
-- What the lists hold, and in what order.
use ot_sec_file_transfer.Base.{
  ◌<◌, ◌⊎◌, ◌↔◌, ap, sym, ◌∙◌, inl, inr, Bool, Bool-cases, Every, if◌then◌else◌, [], ◌∷◌, Dict,
  Text, same_iff, is_empty, precedes, ◌≡◌, refl, arith, true, false, List, precedes_irrefl,
  precedes_trans, precedes_total,
}
use ot_sec_file_transfer.Base.Sort.{sort, sort-perm, sort-IsSorted, IsSorted}
use ot_sec_file_transfer.Transaction.Types.{Transaction, committed, delivered}
use ot_sec_file_transfer.Transaction.Repository.{find_if}
use ot_sec_file_transfer.Transaction.Service.Core.{Caller, Service, Server}
use ot_sec_file_transfer.Transaction.Service.Access.{is_outgoing, is_sender, is_target, belongs}
use ot_sec_file_transfer.Transaction.Service.Reading.{
  newer, committed_before, Box, in_, out, in_box, list, list_outgoing, ids,
}
use mathlib.Core.List.{Perm, Mem, Memᴰ}
use mathlib.Core.List.Perm
use mathlib.Core.List.Memᴰ
use mathlib.Core.Bool.{Bool-set, true≢false}
use mathlib.Core.Logic.{∥∥₁_map, ∥∥₁_elim}
use mathlib.Core.Path.{subst}

newer_asymmetric : (x y : Transaction) → newer x y ≡ true → newer y x ≡ false
unfolding newer
newer_asymmetric x y h = ground (arith, precedes_irrefl x.id, precedes_trans x.id y.id x.id)

newer_transitive : (x y z : Transaction) → newer x y ≡ false → newer y z ≡ false → newer x z ≡ false
unfolding newer
newer_transitive x y z h k = ground (
  arith,
  precedes_total x.id y.id,
  precedes_total y.id z.id,
  precedes_total x.id z.id,
  precedes_trans y.id x.id z.id,
  precedes_trans z.id y.id x.id,
  precedes_trans x.id z.id y.id,
  precedes_irrefl x.id,
  precedes_irrefl z.id,
  precedes_irrefl y.id,
)

committed_before_asymmetric :
    (x y : Transaction) → committed_before x y ≡ true → committed_before y x ≡ false
unfolding committed_before
committed_before_asymmetric x y h =
    ground (arith, precedes_irrefl x.id, precedes_trans x.id y.id x.id)

committed_before_transitive :
    (x y z : Transaction)
    → committed_before x y ≡ false
    → committed_before y z ≡ false
    → committed_before x z ≡ false
unfolding committed_before
committed_before_transitive x y z h k = ground (
  arith,
  precedes_total x.id y.id,
  precedes_total y.id z.id,
  precedes_total x.id z.id,
  precedes_trans z.id y.id x.id,
  precedes_trans x.id z.id y.id,
  precedes_irrefl x.id,
  precedes_irrefl z.id,
  precedes_trans y.id x.id z.id,
  precedes_irrefl y.id,
)

-- The first was created later, or at the same time with an id that does not come after the other's.
abbrev pub IsBefore : Transaction → Transaction → Type 0
IsBefore a b =
    (b.created_at < a.created_at) ⊎ ((a.created_at ≡ b.created_at) × (precedes b.id a.id ≡ false))

abbrev pub IsNewestFirst : List Transaction → Type 0
IsNewestFirst [] = Unit
IsNewestFirst (tx ∷ txs) = Every (IsBefore tx) txs × IsNewestFirst txs

Every-newer :
    (tx : Transaction) (txs : List Transaction)
    → Every (λ other. newer other tx ≡ false) txs
    → Every (IsBefore tx) txs
unfolding newer
Every-newer tx [] h = tt
Every-newer tx (other ∷ txs) h = (ground arith, Every-newer tx txs h.1)

IsSorted-newer : (txs : List Transaction) → IsSorted newer txs → IsNewestFirst txs
IsSorted-newer [] h = tt
IsSorted-newer (tx ∷ txs) h = (Every-newer tx txs h.0, IsSorted-newer txs h.1)

is_empty_iff : (text : Text) → (is_empty text ≡ true) ↔ (text ≡ [])
is_empty_iff [] = (λ h. refl, λ h. refl)
is_empty_iff (c ∷ text) = (λ h. cc, λ h. cc)

-- The transactions of an index.
abbrev pub values : Dict Transaction → List Transaction
values [] = []
values ((id, tx) ∷ m) = tx ∷ values m

find_if-values :
    (pred : Transaction → Bool) (m : Dict Transaction) (tx : Transaction)
    → Memᴰ tx (find_if pred m)
    → Memᴰ tx (values m) × (pred tx ≡ true)
unfolding find_if
find_if-values pred [] tx h = elim h [ ]
find_if-values pred ((id, other) ∷ m) tx h = elim (Bool-cases (pred other)) [
  | inl e ↦
      elim (Memᴰ.cases_cons
        (subst (λ b. Memᴰ tx (if b then other ∷ find_if pred m else find_if pred m)) e h)) [
          | inl is ↦ (Memᴰ.head is, ap pred is ∙ e)
          | inr rest ↦ let (there, fits) = find_if-values pred m tx rest in (Memᴰ.tail there, fits)
        ]
  | inr e ↦
      let (there, fits) =
        find_if-values pred m tx
          (subst (λ b. Memᴰ tx (if b then other ∷ find_if pred m else find_if pred m)) e h) in
      (Memᴰ.tail there, fits)
]

values-find_if :
    (pred : Transaction → Bool) (m : Dict Transaction) (tx : Transaction)
    → pred tx ≡ true
    → Memᴰ tx (values m)
    → Memᴰ tx (find_if pred m)
unfolding find_if
values-find_if pred [] tx e h = elim h [ ]
values-find_if pred ((id, other) ∷ m) tx e h = elim (Bool-cases (pred other)) [
  | inl b ↦ elim (Memᴰ.cases_cons h) [
    | inl is ↦ rw b (Memᴰ.head is)
    | inr rest ↦ rw b (Memᴰ.tail (values-find_if pred m tx e rest))
  ]
  | inr b ↦ elim (Memᴰ.cases_cons h) [
    | inl is ↦ absurd (true≢false (sym e ∙ ap pred is ∙ b))
    | inr rest ↦ rw b (values-find_if pred m tx e rest)
  ]
]

find_if-Mem :
    (pred : Transaction → Bool) (m : Dict Transaction) (tx : Transaction)
    → Mem tx (find_if pred m) ↔ (Mem tx (values m) × (pred tx ≡ true))
find_if-Mem pred m tx = (
  λ h. (
    ∥∥₁_map h (λ d. (find_if-values pred m tx d).0),
    ∥∥₁_elim h (Bool-set (pred tx) true) (λ d. (find_if-values pred m tx d).1),
  ),
  λ h. ∥∥₁_map h.0 (values-find_if pred m tx h.1),
)

module _ {S U D : Type 0} (o : Service S U D) where
  -- Who is to see a transaction in a box: its sender, a user of this server; or its target, or one
  -- who belongs to it, on this server, once it is committed.
  abbrev pub IsShown : Caller → Box → Transaction → Type 0
  IsShown caller out tx = (tx.origin_server ≡ []) × (tx.sender ≡ caller.name)
  IsShown caller in_ tx =
      (tx.target_server ≡ [])
      × ((tx.target_user ≡ caller.name)
          ⊎ (belongs o.is_recipient caller.name tx.target_user ≡ true))
      × ((tx.state ≡ committed) ⊎ (tx.state ≡ delivered))

  in_box-IsShown :
      (caller : Caller) (tx : Transaction) → in_box o caller in_ tx ≡ true → IsShown caller in_ tx
  unfolding in_box is_sender is_target
  in_box-IsShown caller tx e =
      ground (arith, is_empty_iff tx.target_server, same_iff caller.name tx.target_user)

  in_box_iff :
      (caller : Caller) (box : Box) (tx : Transaction)
      → caller.is_peer ≡ false
      → (in_box o caller box tx ≡ true) ↔ IsShown caller box tx
  unfolding in_box is_sender is_target
  in_box_iff caller out tx h = (
    λ e. ground (arith, is_empty_iff tx.origin_server, same_iff caller.name tx.sender),
    λ e. ground (arith, is_empty_iff tx.origin_server, same_iff caller.name tx.sender),
  )
  in_box_iff caller in_ tx h =
      let empty = is_empty_iff tx.target_server in
      let is = same_iff caller.name tx.target_user in
      (λ e. in_box-IsShown caller tx e, λ e. ground (arith, empty, is))

  list_lem :
      (caller : Caller) (box : Box) (s : Server S)
      → caller.is_peer ≡ false
      → list o caller box s ≡ sort newer (find_if (in_box o caller box) s.index)
  unfolding list
  list_lem caller box s h = ground (arith, h)

  -- A caller that is no peer gets, as the outgoing list, exactly the transactions of the index that it
  -- sent on this server, and, as the incoming list, exactly those for it, or for whom it belongs to,
  -- on this server that are committed or delivered; either way newest first, and by id where they
  -- were created at the same time.
  pub list-IsNewestFirst :
      (caller : Caller) (box : Box) (s : Server S)
      → caller.is_peer ≡ false
      → IsNewestFirst (list o caller box s)
        × ((tx : Transaction)
            → Mem tx (list o caller box s) ↔ (Mem tx (values s.index) × IsShown caller box tx))
  list-IsNewestFirst caller box s h =
      let kept = find_if (in_box o caller box) s.index in
      let is = sort-perm newer kept in
      let sorted = sort-IsSorted newer newer_asymmetric newer_transitive kept in
      subst
        (λ txs.
          IsNewestFirst txs
          × ((tx : Transaction) → Mem tx txs ↔ (Mem tx (values s.index) × IsShown caller box tx)))
        (sym (list_lem caller box s h))
        ((
          IsSorted-newer (sort newer kept) sorted,
          λ tx. (
            λ m.
                let (there, fits) =
                  (find_if-Mem (in_box o caller box) s.index tx).0 ((Perm.mem_iff is).0 m) in
                (there, (in_box_iff caller box tx h).0 fits),
            λ m. (Perm.mem_iff is).1 (
                (find_if-Mem (in_box o caller box) s.index tx).1
                  (m.0, (in_box_iff caller box tx h).1 m.1)),
          ),
        ))

module _ {S : Type 0} where
  -- The ids that wait for a peer are those of the outgoing transactions, in the order of their
  -- commits, and by id where the times are the same.
  pub list_outgoing_lem :
      (s : Server S)
      → (txs : List Transaction) × (list_outgoing s ≡ ids txs)
        × IsSorted committed_before txs
        × Perm txs (find_if is_outgoing s.index)
  unfolding list_outgoing
  list_outgoing_lem s =
      let waiting = find_if is_outgoing s.index in
      (
        sort committed_before waiting,
        refl,
        sort-IsSorted committed_before committed_before_asymmetric committed_before_transitive
            waiting,
        sort-perm committed_before waiting,
      )
