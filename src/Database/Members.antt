-- ===== src/Database/Members.antt =====
-- normalizePeerIDs computes what membership's normalizeMembers computes.
use p2pos.Text.{Text}
use p2pos.Database.{unique_ids, normalize_peer_ids}
use p2pos.Common.{[], ◌∷◌, ◌≡◌, List, ap, refl}
use p2pos.Membership.{unique_members, normalize_members}
use p2pos.Text.Sorted.{set_add, sort_texts}

unique_ids-eq : (names out : List Text) → unique_ids out names ≡ unique_members out names
unfolding unique_ids unique_members set_add
unique_ids-eq [] out = refl
unique_ids-eq (v ∷ rest) out = unique_ids-eq rest _

-- The database and the membership manager normalize member lists alike.
pub normalize_peer_ids-eq : (names : List Text) → normalize_peer_ids names ≡ normalize_members names
unfolding normalize_peer_ids normalize_members unique_members sort_texts
normalize_peer_ids-eq [] = refl
normalize_peer_ids-eq (v ∷ rest) = ap sort_texts (unique_ids-eq (v ∷ rest) [])
