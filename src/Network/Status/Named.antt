-- ===== src/Network/Status/Named.antt =====
-- mergeStatusRecords names exactly the peers that the given records name, and no blank id.
use p2pos.Text.Order.{same_iff}
use p2pos.Text.Sorted.{contains-sort_texts}
use p2pos.Network.Status.{Record, merge_status_records, record_of, merge_from, merge_record}
use p2pos.Text.{same, is_blank, contains, Text}
use p2pos.Common.{is_some, [], ◌||◌, ◌&&◌, ◌∙◌, ◌∷◌, ◌≡◌, List, not, ap, arith, refl}
use p2pos.Network.Status.Newest.{peer_ids, contains-put_record, peer_ids-sort_records}

contains-record_of :
    (a : Text) (rs : List Record) → contains a (peer_ids rs) ≡ is_some (record_of a rs)
unfolding record_of
contains-record_of a [] = refl
contains-record_of a (r ∷ rest) = ground (arith, contains-record_of a rest)

contains-merge_record :
    (a : Text) (so_far : List Record) (r : Record)
    → contains a (peer_ids (merge_record so_far r))
      ≡ (contains a (peer_ids so_far) || (not (is_blank a) && same a r.peer_id))
unfolding merge_record
contains-merge_record a so_far r = ground (
  arith,
  same_iff a r.peer_id,
  contains-put_record a r so_far,
  contains-record_of r.peer_id so_far,
)

contains-merge_from :
    (a : Text) (so_far given : List Record)
    → contains a (peer_ids (merge_from so_far given))
      ≡ (contains a (peer_ids so_far) || (not (is_blank a) && contains a (peer_ids given)))
unfolding merge_from
contains-merge_from a so_far [] = ground arith
contains-merge_from a so_far (r ∷ rest) =
    contains-merge_from a (merge_record so_far r) rest
    ∙ ground (arith, contains-merge_record a so_far r)

-- The peers of the merged list are those that some record names, without the blank id.
pub contains-merge_status_records :
    (a : Text) (given : List Record)
    → contains a (peer_ids (merge_status_records given))
      ≡ (not (is_blank a) && contains a (peer_ids given))
unfolding merge_status_records
contains-merge_status_records a given =
    ap (contains a) (peer_ids-sort_records (merge_from [] given))
    ∙ contains-sort_texts a (peer_ids (merge_from [] given))
    ∙ contains-merge_from a [] given
