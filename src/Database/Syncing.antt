-- ===== src/Database/Syncing.antt =====
-- SyncMembers: after it the table holds the members and no one else.
use p2pos.Database.Transactions.{transaction_of_err, transaction_of_ok}
use p2pos.Database.Members.{normalize_peer_ids-eq}
use p2pos.Text.Order.{same_comm, same_iff}
use p2pos.Database.{
  normalize_peer_ids, DbError, sync_members, ids, new_member, Faults, Table, Peer, delete_others,
  insert_members, sync_body, insert_peer, find_peer,
}
use p2pos.Time.{Time}
use p2pos.Text.{codes, same, contains, Text}
use p2pos.Common.{
  Result, Result-cases, ◌⊎◌, ◌∙◌, err, false, Bool-cases, is_some, first, [], ◌+◌, ◌++◌, ◌∷◌, ◌≡◌,
  if◌then◌else◌, List, ℕ, arith, keep, ok, refl, inr, inl, some, none,
}
use p2pos.Membership.{normalize_members}

pub contains-ids : (a : Text) (t : Table) → contains a (ids t) ≡ is_some (find_peer a t)
unfolding find_peer
contains-ids a [] = refl
contains-ids a (p ∷ t) = ground (arith, same_comm a p.peer_id, contains-ids a t)

find_peer-delete_others :
    (a : Text) (kept : List Text) (t : Table)
    → find_peer a (delete_others kept t) ≡ (if contains a kept then find_peer a t else none)
unfolding find_peer delete_others keep
find_peer-delete_others a kept [] = ground arith
find_peer-delete_others a kept (p ∷ t) =
    ground (arith, same_iff p.peer_id a, find_peer-delete_others a kept t)

find_peer-concat :
    (a : Text) (t : Table) (p : Peer)
    → find_peer a (t ++ p ∷ []) ≡ first (find_peer a t) (if same p.peer_id a then some p else none)
unfolding find_peer
find_peer-concat a [] p = ground arith
find_peer-concat a (q ∷ t) p = ground (arith, find_peer-concat a t p)

find_peer-insert_peer :
    (a : Text) (p : Peer) (t : Table)
    → find_peer a (insert_peer p t)
      ≡ first (find_peer a t) (if same p.peer_id a then some p else none)
unfolding insert_peer
find_peer-insert_peer a p t =
    ground (arith, find_peer-concat a t p, contains-ids p.peer_id t, same_iff p.peer_id a)

find_peer-insert_members :
    (a : Text) (faults : Faults) (n : ℕ) (now : Time) (names : List Text) (t : Table) {t' : Table}
    → insert_members faults n now names t ≡ ok t'
    → find_peer a t'
      ≡ first (find_peer a t) (if contains a names then some (new_member now a) else none)
unfolding insert_members
find_peer-insert_members a faults n now [] t h = ground arith
find_peer-insert_members a faults n now (id ∷ rest) t h = elim (Bool-cases (faults n)) [
  | inl f ↦ absurd (cc (rw f at h))
  | inr f ↦ ground (
    arith,
    same_iff a id,
    same_comm id a,
    find_peer-insert_peer a (new_member now id) t,
    find_peer-insert_members a faults (n + 1) now rest (insert_peer (new_member now id) t)
        (rw f at h),
  )
]

find_peer-sync_body :
    (a : Text) (faults : Faults) (now : Time) (names : List Text) (t : Table) {t' : Table}
    → sync_body faults now names t ≡ ok t'
    → find_peer a t'
      ≡ (if contains a names then first (find_peer a t) (some (new_member now a)) else none)
unfolding sync_body find_peer
find_peer-sync_body a faults now [] t h = elim (Bool-cases (faults 0)) [
  | inl f ↦ absurd (cc (rw f at h))
  | inr f ↦ rw (← (nil_of_ok (rw f at h))) refl
]
  where
    nil_of_ok : {t' : Table} → ◌≡◌ {A = Result DbError Table} (ok []) (ok t') → [] ≡ t'
    nil_of_ok e = cc
find_peer-sync_body a faults now (id ∷ rest) t h = elim (Bool-cases (faults 0)) [
  | inl f ↦ absurd (cc (rw f at h))
  | inr f ↦
      find_peer-insert_members a faults 1 now (id ∷ rest) (delete_others (id ∷ rest) t) (rw f at h)
      ∙ ground (arith, find_peer-delete_others a (id ∷ rest) t)
]

-- SyncMembers either fails and leaves the table as it was, or the table then has a row exactly for
-- each of the normalized members: the row that it had, or a new one that is offline, was never
-- pinged or observed by anyone, and was last seen now.
pub find_peer-sync_members :
    (faults : Faults) (now : Time) (members : List Text) (t : Table)
    → ((e : DbError) × (sync_members faults now members t ≡ (t, err e)))
      ⊎ (((sync_members faults now members t).1 ≡ ok tt)
          × ((a : Text)
              → find_peer a (sync_members faults now members t).0 ≡ (
                  if contains a (normalize_members members)
                  then first (find_peer a t) (
                      some (record {
                        peer_id = a;
                        last_remote_addr = [];
                        last_seen_at = now;
                        last_ping_rtt_us = none;
                        last_ping_ok = false;
                        last_ping_at = none;
                        reachability = codes "offline";
                        observed_by = [];
                      }))
                  else none)))
unfolding sync_members
find_peer-sync_members faults now members t =
    elim (Result-cases (sync_body faults now (normalize_peer_ids members) t)) [
      | inl (t', h) ↦
          rw (transaction_of_ok (sync_body faults now (normalize_peer_ids members)) t h) (
            inr (
              refl,
              λ a.
                  rw (← (normalize_peer_ids-eq members))
                    (find_peer-sync_body a faults now (normalize_peer_ids members) t h),
            ))
      | inr (e, h) ↦
          rw (transaction_of_err (sync_body faults now (normalize_peer_ids members)) t h)
            (inl (e, refl))
    ]

-- With no failing statement SyncMembers succeeds.
insert_members_total :
    (faults : Faults) (n : ℕ) (now : Time) (names : List Text) (t : Table)
    → ((k : ℕ) → faults k ≡ false)
    → (t' : Table) × (insert_members faults n now names t ≡ ok t')
unfolding insert_members
insert_members_total faults n now [] t h = (t, refl)
insert_members_total faults n now (id ∷ rest) t h =
    rw (h n) (insert_members_total faults (n + 1) now rest (insert_peer (new_member now id) t) h)

sync_body_total :
    (faults : Faults) (now : Time) (names : List Text) (t : Table)
    → ((k : ℕ) → faults k ≡ false)
    → (t' : Table) × (sync_body faults now names t ≡ ok t')
unfolding sync_body
sync_body_total faults now [] t h = rw (h 0) ([], refl)
sync_body_total faults now (id ∷ rest) t h =
    rw (h 0) (insert_members_total faults 1 now (id ∷ rest) (delete_others (id ∷ rest) t) h)

pub sync_members_total :
    (faults : Faults) (now : Time) (names : List Text) (t : Table)
    → ((k : ℕ) → faults k ≡ false)
    → (sync_members faults now names t).1 ≡ ok tt
unfolding sync_members
sync_members_total faults now names t h =
    let (t', e) = sync_body_total faults now (normalize_peer_ids names) t h in
    rw (transaction_of_ok (sync_body faults now (normalize_peer_ids names)) t e) refl
