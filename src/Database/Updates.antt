-- ===== src/Database/Updates.antt =====
-- The updates of one peer's row: none of them adds or removes a row.
use p2pos.Database.Transactions.{transaction-keeps}
use p2pos.Text.Order.{same-eq, same_iff}
use p2pos.Database.{
  incoming_peer, merge_found, merge_body, merge_observed_state, update_reachability,
  update_ping_result, ids, execute, upsert_last_seen, DbError, Table, PeerStateObserved, Peer,
  update_where, merge_peer, Faults, find_peer,
}
use p2pos.Text.{is_blank, same, Text}
use p2pos.Time.{Time}
use p2pos.Common.{
  Option-cases, ◌∙◌, sym, some, ap₂, Bool-cases, [], ◌∷◌, ◌≡◌, if◌then◌else◌, Result, Bool, ℕ, ap,
  arith, ok, refl, inr, inl, true,
}
use mathlib.Core.Option

ids-update_where :
    (id : Text) (f : Peer → Peer) (t : Table)
    → ((p : Peer) → same p.peer_id id ≡ true → (f p).peer_id ≡ p.peer_id)
    → ids (update_where id f t) ≡ ids t
unfolding update_where
ids-update_where id f [] h = refl
ids-update_where id f (p ∷ t) h = elim (Bool-cases (same p.peer_id id)) [
  | inl e ↦ rw e (ap₂ ◌∷◌ (h p e) (ids-update_where id f t h))
  | inr e ↦ rw e (ap (◌∷◌ p.peer_id) (ids-update_where id f t h))
]

pub find_peer-update_where :
    (a id : Text) (f : Peer → Peer) (t : Table)
    → ((p : Peer) → same p.peer_id id ≡ true → (f p).peer_id ≡ p.peer_id)
    → find_peer a (update_where id f t)
      ≡ (if same id a then Option.map f (find_peer a t) else find_peer a t)
unfolding find_peer update_where
find_peer-update_where a id f [] h = ground arith
find_peer-update_where a id f (p ∷ t) h = ground (
  arith,
  h p,
  same_iff p.peer_id id,
  same_iff p.peer_id a,
  same_iff id a,
  find_peer-update_where a id f t h,
)

-- One call of the repository that writes to a single row.
pub data Update : Type 0 where
  seen : Text → Text → Text → Text → Update
  pinged : Text → Text → Bool → ℕ → Update
  reached : Text → Text → Text → Update
  merged : PeerStateObserved → Update

unfoldable pub write : Update → Faults → Time → Table → Table × Result DbError (Unit {0})
write (seen id addr by r) faults now t = upsert_last_seen faults now id addr by r t
write (pinged id by fine rtt) faults now t = update_ping_result faults now id by fine rtt t
write (reached id by r) faults now t = update_reachability faults now id by r t
write (merged state) faults now t = merge_observed_state faults now state t

execute-ids :
    (faults : Faults) (n : ℕ) (id : Text) (f : Peer → Peer) (t : Table)
    → ((p : Peer) → same p.peer_id id ≡ true → (f p).peer_id ≡ p.peer_id)
    → (t' : Table) → execute faults n (update_where id f) t ≡ ok t'
    → ids t' ≡ ids t
execute-ids faults n id f t h t' e = elim (Bool-cases (faults n)) [
  | inl k ↦ absurd (cc (rw k at e))
  | inr k ↦ rw (← (updated (rw k at e))) (ids-update_where id f t h)
]
  where
    updated :
        ◌≡◌ {A = Result DbError Table} (ok (update_where id f t)) (ok t') → update_where id f t ≡ t'
    updated p = cc

merge_peer-peer_id :
    (state : PeerStateObserved) (incoming existing : Peer)
    → (merge_peer state incoming existing).peer_id ≡ existing.peer_id
unfolding merge_peer
merge_peer-peer_id state incoming existing = ground arith

pub find_peer-id : (a : Text) (t : Table) (p : Peer) → find_peer a t ≡ some p → p.peer_id ≡ a
unfolding find_peer
find_peer-id a [] p h = cc
find_peer-id a (q ∷ t) p h = ground (arith, same_iff q.peer_id a, find_peer-id a t p)

pub merged-peer_id :
    (state : PeerStateObserved) (incoming existing : Peer) (t : Table)
    → find_peer state.peer_id t ≡ some existing
    → (p : Peer) → same p.peer_id state.peer_id ≡ true
    → (merge_peer state incoming existing).peer_id ≡ p.peer_id
merged-peer_id state incoming existing t found p e =
    merge_peer-peer_id state incoming existing
    ∙ find_peer-id state.peer_id t existing found
    ∙ sym (same-eq p.peer_id state.peer_id e)

merge_found-ids :
    (faults : Faults) (state : PeerStateObserved) (incoming existing : Peer) (t : Table)
    → find_peer state.peer_id t ≡ some existing
    → (t' : Table) → merge_found faults state incoming existing t ≡ ok t'
    → ids t' ≡ ids t
unfolding merge_found
merge_found-ids faults state incoming existing t found t' h = ground (
  arith,
  execute-ids faults 1 state.peer_id (λ (_ : Peer). merge_peer state incoming existing) t
      (merged-peer_id state incoming existing t found) t',
)

merge_body-ids :
    (faults : Faults) (now : Time) (state : PeerStateObserved) (t t' : Table)
    → merge_body faults now state t ≡ ok t'
    → ids t' ≡ ids t
unfolding merge_body
merge_body-ids faults now state t t' h = elim (Bool-cases (faults 0)) [
  | inl k ↦ absurd (cc (rw k at h))
  | inr k ↦ elim (Option-cases (find_peer state.peer_id t)) [
    | inl gone ↦ ap ids (sym (unchanged (rw (k, gone) at h)))
    | inr (p, found) ↦
        merge_found-ids faults state (incoming_peer now state) p t found t' (rw (k, found) at h)
  ]
]
  where
    unchanged : ◌≡◌ {A = Result DbError Table} (ok t) (ok t') → t ≡ t'
    unchanged p = cc

-- Whatever is written about a peer, the table has the same rows in the same order afterwards: an
-- observation never makes a peer a member, and never removes one.
pub ids-write :
    (u : Update) (faults : Faults) (now : Time) (t : Table) → ids (write u faults now t).0 ≡ ids t
unfolding write upsert_last_seen update_ping_result update_reachability merge_observed_state
ids-write (seen id addr by r) faults now t =
    transaction-keeps (λ u. ids u ≡ ids t) _ t refl (execute-ids faults 0 id _ t (λ p e. refl))
ids-write (pinged id by fine rtt) faults now t =
    transaction-keeps (λ u. ids u ≡ ids t) _ t refl (execute-ids faults 0 id _ t (λ p e. refl))
ids-write (reached id by r) faults now t =
    transaction-keeps (λ u. ids u ≡ ids t) _ t refl (execute-ids faults 0 id _ t (λ p e. refl))
ids-write (merged state) faults now t = elim (Bool-cases (is_blank state.peer_id)) [
  | inl e ↦ rw e refl
  | inr e ↦ rw e (
      transaction-keeps (λ u. ids u ≡ ids t) (merge_body faults now state) t refl
        (merge_body-ids faults now state t))
]
