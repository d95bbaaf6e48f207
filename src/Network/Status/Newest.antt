-- ===== src/Network/Status/Newest.antt =====
-- mergeStatusRecords keeps, of every peer, the record that was seen last.
use p2pos.Text.Sorted.{
  sort_texts, insert_sorted, sort_texts-IsSorted, contains-sort_texts, IsDistinct, IsSorted,
}
use p2pos.Text.Order.{same_refl, same_comm, same_iff}
use p2pos.Network.Status.{
  insert_record, sort_records, merge_from, put_record, merge_status_records, Record, merge_record,
  record_of,
}
use p2pos.Text.{same, contains, is_blank, Text}
use p2pos.Common.{
  Option-cases, ◌≢◌, sym, Bool-cases, ◌⊎◌, ◌≤◌, subst, All, inr, inl, true, map, [], ◌||◌, ◌∙◌, ◌∷◌,
  ◌≡◌, if◌then◌else◌, Option, List, ap, arith, ltb, refl, false, some, none,
}

abbrev pub peer_ids : List Record → List Text
peer_ids = map (λ r. r.peer_id)

record_of-put_record :
    (a : Text) (r : Record) (so_far : List Record)
    → record_of a (put_record r so_far) ≡ (if same a r.peer_id then some r else record_of a so_far)
unfolding record_of put_record
record_of-put_record a r [] = ground arith
record_of-put_record a r (q ∷ rest) = ground (
  arith,
  record_of-put_record a r rest,
  same_iff r.peer_id q.peer_id,
  same_iff a r.peer_id,
  same_iff a q.peer_id,
)

pub contains-put_record :
    (a : Text) (r : Record) (so_far : List Record)
    → contains a (peer_ids (put_record r so_far))
      ≡ (same a r.peer_id || contains a (peer_ids so_far))
unfolding put_record
contains-put_record a r [] = ground arith
contains-put_record a r (q ∷ rest) =
    ground (arith, contains-put_record a r rest, same_iff r.peer_id q.peer_id)

-- The newest record of a peer among some, the earlier one in the list where two are equally new.
unfoldable pub newest : Text → Option Record → List Record → Option Record
newest a best [] = best
newest a best (r ∷ rest) =
    newest a
      (if same a r.peer_id
        then elim best [
          | none ↦ some r
          | some b ↦ if ltb b.last_seen_at r.last_seen_at then some r else some b
        ]
        else best)
      rest

record_of-merge_record :
    (a : Text) (so_far : List Record) (r : Record)
    → is_blank a ≡ false
    → record_of a (merge_record so_far r) ≡ (
        if same a r.peer_id
        then elim (record_of a so_far) [
          | none ↦ some r
          | some b ↦ if ltb b.last_seen_at r.last_seen_at then some r else some b
        ]
        else record_of a so_far)
unfolding merge_record
record_of-merge_record a so_far r h =
    ground (arith, same_iff a r.peer_id, record_of-put_record a r so_far)

record_of-merge_from :
    (a : Text) (so_far given : List Record)
    → is_blank a ≡ false
    → record_of a (merge_from so_far given) ≡ newest a (record_of a so_far) given
unfolding merge_from newest
record_of-merge_from a so_far [] h = refl
record_of-merge_from a so_far (r ∷ rest) h =
    record_of-merge_from a (merge_record so_far r) rest h
    ∙ ap (λ b. newest a b rest) (record_of-merge_record a so_far r h)

abbrev pub Has : Record → List Record → Type 0
Has r [] = ⊥
Has r (x ∷ rest) = (x ≡ r) ⊎ Has r rest

some-inj : {a b : Record} → some a ≡ some b → a ≡ b
some-inj h = cc

-- What `newest` returns is the start or a record of the peer.
newest-Has :
    (a : Text) (best : Option Record) (given : List Record) (r : Record)
    → newest a best given ≡ some r
    → (best ≡ some r) ⊎ (Has r given × (same a r.peer_id ≡ true))
unfolding newest
newest-Has a best [] r h = inl h
newest-Has a none (x ∷ rest) r h = elim (Bool-cases (same a x.peer_id)) [
  | inl e ↦ elim (newest-Has a (some x) rest r (rw e at h)) [
    | inl k ↦ inr (inl (some-inj k), subst (λ y. same a y.peer_id ≡ true) (some-inj k) e)
    | inr k ↦ inr (inr k.0, k.1)
  ]
  | inr e ↦ elim (newest-Has a none rest r (rw e at h)) [
    | inl k ↦ inl k
    | inr k ↦ inr (inr k.0, k.1)
  ]
]
newest-Has a (some b) (x ∷ rest) r h =
    ground (arith, newest-Has a (some x) rest r, newest-Has a (some b) rest r)

newest_ge_best :
    (a : Text) (b : Record) (given : List Record) (r : Record)
    → newest a (some b) given ≡ some r
    → b.last_seen_at ≤ r.last_seen_at
unfolding newest
newest_ge_best a b [] r h = ground arith
newest_ge_best a b (x ∷ rest) r h =
    ground (arith, newest_ge_best a b rest r, newest_ge_best a x rest r)

newest_ge :
    (a : Text) (best : Option Record) (given : List Record) (r : Record)
    → newest a best given ≡ some r
    → All (λ x. same a x.peer_id ≡ true → x.last_seen_at ≤ r.last_seen_at) given
unfolding newest
newest_ge a best [] r h = tt
newest_ge a none (x ∷ rest) r h = (
  λ e. newest_ge_best a x rest r (rw e at h),
  newest_ge a (if same a x.peer_id then some x else none) rest r h,
)
newest_ge a (some b) (x ∷ rest) r h = (
  λ e. ground (arith, newest_ge_best a x rest r, newest_ge_best a b rest r),
  newest_ge a
      (if same a x.peer_id
        then (if ltb b.last_seen_at x.last_seen_at then some x else some b)
        else some b)
      rest r h,
)

newest-some : (a : Text) (b : Record) (given : List Record) → newest a (some b) given ≢ none
unfolding newest
newest-some a b [] h = cc
newest-some a b (x ∷ rest) h = ground (arith, newest-some a x rest, newest-some a b rest)

newest-total :
    (a : Text) (given : List Record)
    → contains a (peer_ids given) ≡ true
    → newest a none given ≢ none
unfolding newest
newest-total a [] h k = absurd (cc)
newest-total a (x ∷ rest) h k = ground (arith, newest-total a rest, newest-some a x rest)

record_of-insert_record :
    (a : Text) (r : Record) (rest : List Record)
    → contains r.peer_id (peer_ids rest) ≡ false
    → record_of a (insert_record r rest) ≡ (if same a r.peer_id then some r else record_of a rest)
unfolding insert_record record_of
record_of-insert_record a r [] d = refl
record_of-insert_record a r (q ∷ rest) d = ground (
  arith,
  record_of-insert_record a r rest,
  same_iff a q.peer_id,
  same_iff a r.peer_id,
  same_comm r.peer_id q.peer_id,
  same_refl a,
)

peer_ids-insert_record :
    (r : Record) (rest : List Record)
    → peer_ids (insert_record r rest) ≡ insert_sorted r.peer_id (peer_ids rest)
unfolding insert_record insert_sorted
peer_ids-insert_record r [] = refl
peer_ids-insert_record r (q ∷ rest) = ground (arith, peer_ids-insert_record r rest)

pub peer_ids-sort_records :
    (rs : List Record) → peer_ids (sort_records rs) ≡ sort_texts (peer_ids rs)
unfolding sort_records sort_texts
peer_ids-sort_records [] = refl
peer_ids-sort_records (r ∷ rest) =
    peer_ids-insert_record r (sort_records rest)
    ∙ ap (insert_sorted r.peer_id) (peer_ids-sort_records rest)

record_of-sort_records :
    (a : Text) (rs : List Record)
    → IsDistinct (peer_ids rs)
    → record_of a (sort_records rs) ≡ record_of a rs
unfolding sort_records record_of
record_of-sort_records a [] d = refl
record_of-sort_records a (r ∷ rest) d =
    record_of-insert_record a r (sort_records rest) (
      ap (contains r.peer_id) (peer_ids-sort_records rest)
      ∙ contains-sort_texts r.peer_id (peer_ids rest)
      ∙ d.0)
    ∙ ap (λ o. if same a r.peer_id then some r else o) (record_of-sort_records a rest d.1)

put_record-IsDistinct :
    (r : Record) (rs : List Record)
    → IsDistinct (peer_ids rs)
    → IsDistinct (peer_ids (put_record r rs))
unfolding put_record
put_record-IsDistinct r [] d = (refl, tt)
put_record-IsDistinct r (q ∷ rest) d = ground (
  arith,
  put_record-IsDistinct r rest d.1,
  contains-put_record q.peer_id r rest,
  same_iff r.peer_id q.peer_id,
  same_comm r.peer_id q.peer_id,
)

merge_record-IsDistinct :
    (r : Record) (rs : List Record)
    → IsDistinct (peer_ids rs)
    → IsDistinct (peer_ids (merge_record rs r))
unfolding merge_record
merge_record-IsDistinct r rs d = ground (arith, put_record-IsDistinct r rs d)

merge_from-IsDistinct :
    (rs given : List Record)
    → IsDistinct (peer_ids rs)
    → IsDistinct (peer_ids (merge_from rs given))
unfolding merge_from
merge_from-IsDistinct rs [] d = d
merge_from-IsDistinct rs (r ∷ rest) d =
    merge_from-IsDistinct (merge_record rs r) rest (merge_record-IsDistinct r rs d)

lookup :
    (a : Text) (given : List Record)
    → is_blank a ≡ false
    → record_of a (merge_status_records given) ≡ newest a none given
unfolding merge_status_records record_of
lookup a given h =
    record_of-sort_records a (merge_from [] given) (merge_from-IsDistinct [] given tt)
    ∙ record_of-merge_from a [] given h

-- The merged list names no peer twice and is in order of the peer ids.
pub merge_status_records-IsSorted :
    (given : List Record) → IsSorted (peer_ids (merge_status_records given))
unfolding merge_status_records
merge_status_records-IsSorted given =
    subst IsSorted (sym (peer_ids-sort_records (merge_from [] given)))
      (sort_texts-IsSorted (peer_ids (merge_from [] given)) (merge_from-IsDistinct [] given tt))

-- For every peer that some given record names, the merged list has a record; it is one of those
-- given for the peer, and none of them was seen later.
pub merge_status_records-newest :
    (a : Text) (given : List Record)
    → is_blank a ≡ false
    → contains a (peer_ids given) ≡ true
    → (r : Record) × (record_of a (merge_status_records given) ≡ some r)
      × Has r given
      × (same a r.peer_id ≡ true)
      × All (λ x. same a x.peer_id ≡ true → x.last_seen_at ≤ r.last_seen_at) given
merge_status_records-newest a given h named = elim (Option-cases (newest a none given)) [
  | inl k ↦ absurd (newest-total a given named k)
  | inr (r, k) ↦ elim (newest-Has a none given r k) [
    | inl e ↦ absurd (cc)
    | inr (here, own) ↦ (r, lookup a given h ∙ k, here, own, newest_ge a none given r k)
  ]
]
