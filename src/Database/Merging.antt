-- ===== src/Database/Merging.antt =====
-- MergeObservedState: which row it writes, and in what sense the later observation wins.
use p2pos.Database.Transactions.{transaction_of_err, transaction_of_ok}
use p2pos.Text.Order.{same-eq, same_iff}
use p2pos.Database.{
  DbError, merge_body, merge_found, update_where, incoming_peer, find_peer, peer_updated_at, Table,
  is_newer, fills_addr, Faults, Peer, PeerStateObserved, merge_observed_state, merge_peer,
}
use p2pos.Time.{is_zero, Time}
use p2pos.Text.{is_blank, same, codes, Text}
use p2pos.Common.{
  ◌<◌, ◌≤◌, true, Option-cases, Bool-cases, Result-cases, ◌∙◌, Result, sym, ap, inr, inl, refl,
  none, ◌||◌, ◌≡◌, if◌then◌else◌, arith, ok, false, some,
}
use mathlib.Core.Option
use p2pos.Database.Updates.{merged-peer_id, find_peer-update_where}

-- The row that a merge leaves: the own row of the node is never touched.
unfoldable pub merged_row : PeerStateObserved → Peer → Peer → Peer
merged_row state incoming existing =
    if same existing.reachability (codes "self")
    then existing
    else merge_peer state incoming existing

merge_peer_unchanged :
    (state : PeerStateObserved) (incoming existing : Peer)
    → (fills_addr incoming existing || is_newer state incoming existing) ≡ false
    → merge_peer state incoming existing ≡ existing
unfolding merge_peer
merge_peer_unchanged state incoming existing h = ground arith

-- What a lookup of `a` gives after the row of the observed peer is replaced.
abbrev AfterMerge : PeerStateObserved → Peer → Table → Table → Text → Type 0
AfterMerge state incoming t t' a = find_peer a t' ≡ (
    if same state.peer_id a
    then Option.map (merged_row state incoming) (find_peer a t)
    else find_peer a t)

AfterMerge-same :
    (state : PeerStateObserved) (incoming p : Peer) (t : Table)
    → find_peer state.peer_id t ≡ some p
    → merged_row state incoming p ≡ p
    → (a : Text) → AfterMerge state incoming t t a
AfterMerge-same state incoming p t found fixed a = elim (Bool-cases (same state.peer_id a)) [
  | inl e ↦
      let here : find_peer a t ≡ some p =
        ap (λ b. find_peer b t) (sym (same-eq state.peer_id a e)) ∙ found in
      rw (e, here, fixed) refl
  | inr e ↦ rw e refl
]

AfterMerge-update :
    (state : PeerStateObserved) (incoming p : Peer) (t : Table)
    → find_peer state.peer_id t ≡ some p
    → merged_row state incoming p ≡ merge_peer state incoming p
    → (a : Text)
    → AfterMerge state incoming t
        (update_where state.peer_id (λ _. merge_peer state incoming p) t)
        a
AfterMerge-update state incoming p t found fixed a =
    find_peer-update_where a state.peer_id (λ _. merge_peer state incoming p) t
      (merged-peer_id state incoming p t found)
    ∙ (elim (Bool-cases (same state.peer_id a)) [
      | inl e ↦
          let here : find_peer a t ≡ some p =
            ap (λ b. find_peer b t) (sym (same-eq state.peer_id a e)) ∙ found in
          rw (e, here, fixed) refl
      | inr e ↦ rw e refl
    ])

ok-inj : {t t' : Table} → ◌≡◌ {A = Result DbError Table} (ok t) (ok t') → t ≡ t'
ok-inj h = cc

merge_found-AfterMerge :
    (faults : Faults) (state : PeerStateObserved) (incoming p : Peer) (t t' : Table)
    → find_peer state.peer_id t ≡ some p
    → merge_found faults state incoming p t ≡ ok t'
    → (a : Text) → AfterMerge state incoming t t' a
unfolding merge_found merged_row
merge_found-AfterMerge faults state incoming p t t' found h a =
    elim (Bool-cases (same p.reachability (codes "self"))) [
      | inl s ↦ rw (← (ok-inj (rw s at h))) (AfterMerge-same state incoming p t found (rw s refl) a)
      | inr s ↦ elim (Bool-cases (fills_addr incoming p || is_newer state incoming p)) [
        | inr u ↦ rw (← (ok-inj (rw (s, u) at h))) (
            AfterMerge-same state incoming p t found
              (rw s (merge_peer_unchanged state incoming p u)) a)
        | inl u ↦ elim (Bool-cases (faults 1)) [
          | inl k ↦ absurd (cc (rw (s, u, k) at h))
          | inr k ↦
              rw (← (ok-inj (rw (s, u, k) at h)))
                (AfterMerge-update state incoming p t found (rw s refl) a)
        ]
      ]
    ]

merge_body-AfterMerge :
    (faults : Faults) (now : Time) (state : PeerStateObserved) (t t' : Table)
    → merge_body faults now state t ≡ ok t'
    → (a : Text) → AfterMerge state (incoming_peer now state) t t' a
unfolding merge_body
merge_body-AfterMerge faults now state t t' h a = elim (Bool-cases (faults 0)) [
  | inl k ↦ absurd (cc (rw k at h))
  | inr k ↦ elim (Option-cases (find_peer state.peer_id t)) [
    | inl gone ↦ rw (← (ok-inj (rw (k, gone) at h))) (ground (arith, same_iff state.peer_id a))
    | inr (p, found) ↦
        merge_found-AfterMerge faults state (incoming_peer now state) p t t' found
          (rw (k, found) at h) a
  ]
]

-- A merge that succeeds changes the row of the observed peer alone, and only if there is one.
pub find_peer-merge_observed_state :
    (faults : Faults) (now : Time) (state : PeerStateObserved) (t : Table)
    → is_blank state.peer_id ≡ false
    → (merge_observed_state faults now state t).1 ≡ ok tt
    → (a : Text)
    → find_peer a (merge_observed_state faults now state t).0 ≡ (
        if same state.peer_id a
        then Option.map (merged_row state (incoming_peer now state)) (find_peer a t)
        else find_peer a t)
unfolding merge_observed_state
find_peer-merge_observed_state faults now state t filled fine a =
    elim (Result-cases (merge_body faults now state t)) [
      | inl (t', h) ↦
          rw (filled, transaction_of_ok (merge_body faults now state) t h)
            (merge_body-AfterMerge faults now state t t' h a)
      | inr (e, h) ↦
          absurd (cc (rw (filled, transaction_of_err (merge_body faults now state) t h) at fine))
    ]

merge_peer_idem :
    (state : PeerStateObserved) (incoming p : Peer)
    → incoming.last_ping_at ≡ none
    → merge_peer state incoming (merge_peer state incoming p) ≡ merge_peer state incoming p
unfolding merge_peer is_newer peer_updated_at
merge_peer_idem state incoming p h = ground arith

-- Merging one observation twice is merging it once.
pub merged_row_idem :
    (state : PeerStateObserved) (now : Time) (p : Peer)
    → merged_row state (incoming_peer now state) (merged_row state (incoming_peer now state) p)
      ≡ merged_row state (incoming_peer now state) p
unfolding merged_row
merged_row_idem state now p =
    ground (arith, merge_peer_idem state (incoming_peer now state) p (unfold incoming_peer in refl))

-- An observation never takes a peer from online to offline.
pub merged_row_online :
    (state : PeerStateObserved) (incoming p : Peer)
    → p.reachability ≡ codes "online"
    → (merged_row state incoming p).reachability ≡ codes "online"
unfolding merged_row merge_peer
merged_row_online state incoming p h = ground (arith, same_iff p.reachability (codes "online"))

-- The clock of a row is its last ping, or else the time it was last seen. A merge that is newer by
-- that clock sets it to the time that the observation names, whatever the observation's own time.
pub merge_peer-updated_at :
    (state : PeerStateObserved) (incoming p : Peer)
    → incoming.last_ping_at ≡ none
    → is_newer state incoming p ≡ true
    → peer_updated_at (merge_peer state incoming p) ≡ incoming.last_seen_at
unfolding merge_peer peer_updated_at
merge_peer-updated_at state incoming p h newer = ground arith

-- An observation that bears no time of its own never turns the clock back, and the row ends with
-- the later of the two clocks.
pub merged_row_monotone :
    (state : PeerStateObserved) (now : Time) (p : Peer)
    → is_zero state.observed_at ≡ true
    → peer_updated_at p ≤ peer_updated_at (merged_row state (incoming_peer now state) p)
unfolding merged_row merge_peer is_newer incoming_peer peer_updated_at
merged_row_monotone state now p h = ground arith

-- The clock of a row can run backwards: an observation made after the row's clock that names an
-- earlier time is written, and the row's clock falls to that time.
pub merge_peer_clock_falls :
    (state : PeerStateObserved) (now : Time) (p : Peer)
    → same p.reachability (codes "self") ≡ false
    → is_zero state.observed_at ≡ false
    → is_zero state.last_seen_at ≡ false
    → peer_updated_at p < state.observed_at
    → state.last_seen_at < peer_updated_at p
    → peer_updated_at (merged_row state (incoming_peer now state) p) < peer_updated_at p
unfolding merged_row incoming_peer is_newer
merge_peer_clock_falls state now p other dated seen newer earlier =
    rw (other, merge_peer-updated_at state (incoming_peer now state) p refl (ground arith))
      (rw seen earlier)
