-- ===== src/App/Setup/Stored.antt =====
-- What setupMembership's handler writes to the table is what setupMembership reads from it.

use p2pos.Text.Order.{same_refl, same_iff}
use p2pos.Database.Syncing.{contains-ids, find_peer-sync_members}
use p2pos.Database.Members.{normalize_peer_ids-eq}
use p2pos.Membership.Members.{normalize_members_idem, normalize_members-ext}
use p2pos.App.Setup.{on_applied}
use p2pos.Database.{
  new_member, find_peer, ids, sync_members, Peer, Table, Faults, insert_by_id, list_member_ids,
  order_by_id,
}
use p2pos.Time.{Time}
use p2pos.Text.{trim_space, same, contains, Text}
use p2pos.Common.{
  is_some, Bool-ext, first, Bool-cases, map, [], ◌||◌, ◌∙◌, ◌∷◌, ◌≡◌, if◌then◌else◌, Option, List,
  subst, sym, ap, arith, ok, refl, inr, inl, false, true, some, none,
}
use p2pos.Membership.{Snapshot, normalize_members}

contains-map :
    (f : Text → Text) (b : Text) (xs : List Text)
    → contains b xs ≡ true
    → contains (f b) (map f xs) ≡ true
contains-map f b [] h = absurd (cc)
contains-map f b (x ∷ xs) h = elim (Bool-cases (same b x)) [
  | inl e ↦ rw ((same_iff b x).0 e, same_refl (f x)) refl
  | inr e ↦ ground (arith, contains-map f b xs (ground arith))
]

source_of_contains :
    (f : Text → Text) (a : Text) (xs : List Text)
    → contains a (map f xs) ≡ true
    → (b : Text) × (contains b xs ≡ true) × (a ≡ f b)
source_of_contains f a [] h = absurd (cc)
source_of_contains f a (x ∷ xs) h = elim (Bool-cases (same a (f x))) [
  | inl e ↦ (x, ground (arith, same_refl x), (same_iff a (f x)).0 e)
  | inr e ↦
      let (b, found, made) = source_of_contains f a xs (ground arith) in (b, ground arith, made)
]

-- Lists with the same names have one normal form.
normalize_members_of_same :
    (xs ys : List Text)
    → ((a : Text) → contains a xs ≡ contains a ys)
    → normalize_members xs ≡ normalize_members ys
normalize_members_of_same xs ys h = normalize_members-ext xs ys λ a _.
    Bool-ext (contains a (map trim_space xs)) (contains a (map trim_space ys))
      (λ found.
        let (b, held, e) = source_of_contains trim_space a xs found in
        subst (λ x. contains x (map trim_space ys) ≡ true) (sym e)
          (contains-map trim_space b ys (sym (h b) ∙ held)))
      (λ found.
        let (b, held, e) = source_of_contains trim_space a ys found in
        subst (λ x. contains x (map trim_space xs) ≡ true) (sym e)
          (contains-map trim_space b xs (h b ∙ held)))

contains-insert_by_id :
    (a : Text) (p : Peer) (t : Table)
    → contains a (ids (insert_by_id p t)) ≡ (same a p.peer_id || contains a (ids t))
unfolding insert_by_id
contains-insert_by_id a p [] = refl
contains-insert_by_id a p (q ∷ t) = ground (arith, contains-insert_by_id a p t)

contains-order_by_id :
    (a : Text) (t : Table) → contains a (ids (order_by_id t)) ≡ contains a (ids t)
unfolding order_by_id
contains-order_by_id a [] = refl
contains-order_by_id a (p ∷ t) =
    contains-insert_by_id a p (order_by_id t)
    ∙ ap (λ b. same a p.peer_id || b) (contains-order_by_id a t)

contains_of_find :
    (a : Text) (old : Table) (now : Time) (names : List Text) (r : Option Peer)
    → r ≡ (if contains a names then first (find_peer a old) (some (new_member now a)) else none)
    → is_some r ≡ contains a names
contains_of_find a old now names r h = ground arith

contains-ids-sync_members :
    (faults : Faults) (now : Time) (members : List Text) (t : Table)
    → (sync_members faults now members t).1 ≡ ok tt
    → (a : Text)
    → contains a (ids (sync_members faults now members t).0)
      ≡ contains a (normalize_members members)
contains-ids-sync_members faults now members t h a =
    elim (find_peer-sync_members faults now members t) [
      | inl (e, failed) ↦ absurd (cc (rw failed at h))
      | inr (_, rows) ↦
          contains-ids a (sync_members faults now members t).0
          ∙ contains_of_find a t now (normalize_members members) _ (rows a)
    ]

-- What is written is read back in normal form.
pub list_member_ids-on_applied :
    (faults reading : Faults) (now : Time) (s : Snapshot) (t : Table)
    → (sync_members faults now s.members t).1 ≡ ok tt
    → reading 0 ≡ false
    → list_member_ids reading (on_applied faults now s t) ≡ ok (normalize_members s.members)
unfolding list_member_ids on_applied
list_member_ids-on_applied faults reading now s t written read =
    let table = (sync_members faults now s.members t).0 in
    rw read (
      ap ok (
        normalize_peer_ids-eq (ids (order_by_id table))
        ∙ normalize_members_of_same (ids (order_by_id table)) (normalize_members s.members) (λ a.
          contains-order_by_id a table ∙ contains-ids-sync_members faults now s.members t written a)
        ∙ normalize_members_idem s.members))
