-- ===== src/Network/Node/Quorum.antt =====
-- The majority rule: what `healthy` means, and that two halves of a cluster are not both healthy.
use p2pos.Membership.Applying.{IsConsistent}
use p2pos.Membership.{is_member, current_snapshot, Manager}
use p2pos.Network.Node.{healthy, Peers, count_online, runtime_state}
use p2pos.Text.Order.{same_refl, same_iff}
use p2pos.Env.{Env}
use p2pos.Text.Sorted.{contains-append, IsDistinct}
use p2pos.Text.{same, contains, Text}
use p2pos.Common.{
  ◌≢◌, length-append, Bool-cases, ◌++◌, sym, [], ◌↔◌, ◌⊎◌, ◌<◌, ◌≤◌, ◌*◌, ◌+◌, ◌&&◌, ◌∙◌, ◌∷◌, ◌≡◌,
  if◌then◌else◌, List, ℕ, arith, length, refl, inr, inl, false, true, some, suc,
}

-- The peers that evaluateRuntimeState counts.
unfoldable pub online_members : (env : Env) → Manager env → Peers → List Text
online_members env manager [] = []
online_members env manager ((pid, connected) ∷ rest) =
    let others = online_members env manager rest in
    if connected && is_member env manager pid then pid ∷ others else others

remove_first : Text → List Text → List Text
remove_first x [] = []
remove_first x (y ∷ ys) = let rest = remove_first x ys in if same x y then ys else y ∷ rest

length-remove_first :
    (x : Text) (ys : List Text)
    → contains x ys ≡ true
    → suc (length (remove_first x ys)) ≡ length ys
unfolding remove_first
length-remove_first x [] h = absurd (cc)
length-remove_first x (y ∷ ys) h = ground (arith, length-remove_first x ys)

contains-remove_first :
    (x a : Text) (ys : List Text)
    → same a x ≡ false
    → contains a (remove_first x ys) ≡ contains a ys
unfolding remove_first
contains-remove_first x a [] h = refl
contains-remove_first x a (y ∷ ys) h = ground (arith, same_iff x y, contains-remove_first x a ys)

abbrev pub IsWithin : List Text → List Text → Type 0
IsWithin xs ys = (a : Text) → contains a xs ≡ true → contains a ys ≡ true

-- Distinct names out of a list are no more than the list has.
pub length-le_of_IsWithin :
    (xs ys : List Text) → IsDistinct xs → IsWithin xs ys → length xs ≤ length ys
length-le_of_IsWithin [] ys d h = omega arith
length-le_of_IsWithin (x ∷ xs) ys d h =
    let fewer =
      length-le_of_IsWithin xs (remove_first x ys) d.1
        (λ a k. narrow a k (Bool-cases (same a x))) in
    omega (arith, length-remove_first x ys (h x (ground (arith, same_refl x))))
  where
    narrow :
        (a : Text)
        → contains a xs ≡ true
        → (same a x ≡ true) ⊎ (same a x ≡ false)
        → contains a (remove_first x ys) ≡ true
    narrow a k (inl e) = absurd (ground (arith, same_iff a x))
    narrow a k (inr e) = contains-remove_first x a ys e ∙ h a (ground arith)

length_pos_of_contains : (x : Text) (ys : List Text) → contains x ys ≡ true → 0 < length ys
length_pos_of_contains x [] h = absurd (cc)
length_pos_of_contains x (y ∷ ys) h = omega arith

module _ (env : Env) where
  is_member-set :
      (m : Manager env) (x : Text) → is_member env m x ≡ true → contains x m.member_set ≡ true
  unfolding is_member
  is_member-set m x h = h

  pub count_online-length :
      (m : Manager env) (k : ℕ) (peers : Peers)
      → count_online env m k peers ≡ k + length (online_members env m peers)
  unfolding count_online online_members
  count_online-length m k [] = omega arith
  count_online-length m k ((pid, connected) ∷ rest) =
      ground (arith, count_online-length m k rest, count_online-length m (k + 1) rest)

  pub online_members-IsMember :
      (m : Manager env) (peers : Peers) (a : Text)
      → contains a (online_members env m peers) ≡ true
      → is_member env m a ≡ true
  unfolding online_members
  online_members-IsMember m [] a h = absurd (cc)
  online_members-IsMember m ((pid, connected) ∷ rest) a h =
      ground (arith, same_iff a pid, online_members-IsMember m rest a)

  members-pos :
      (m : Manager env) (local : Text)
      → IsConsistent env m
      → is_member env m local ≡ true
      → 0 < length m.snapshot.members
  unfolding is_member
  members-pos m local c h =
      length_pos_of_contains local m.snapshot.members (sym (c.set_is_members local) ∙ h)

  -- A node is healthy exactly if it is a member of a cluster in which it and the connected members
  -- are more than half of all.
  pub runtime_state_healthy_iff :
      (local : Text) (m : Manager env) (peers : Peers)
      → IsConsistent env m
      → (runtime_state env local (some m) peers ≡ healthy) ↔ (
          (is_member env m local ≡ true)
          × (length m.snapshot.members < (1 + length (online_members env m peers)) * 2))
  unfolding runtime_state current_snapshot
  runtime_state_healthy_iff local m peers c = (
    λ h. ground (arith, count_online-length m 1 peers),
    λ h. ground (arith, count_online-length m 1 peers, members-pos m local c h.0),
  )

  -- The members that a node sees online, itself among them.
  abbrev pub side : Text → Manager env → Peers → List Text
  side local m peers = local ∷ online_members env m peers

  side-within :
      (local : Text) (m : Manager env) (peers : Peers)
      → is_member env m local ≡ true
      → (a : Text) → contains a (side local m peers) ≡ true
      → is_member env m a ≡ true
  side-within local m peers h a k =
      ground (arith, same_iff a local, online_members-IsMember m peers a)

  -- Two nodes with one member list that see no member in common, as in a network that has fallen in
  -- two, are never both healthy. Each is on its own side, and no connection is listed twice.
  pub healthy_not_both :
      (m : Manager env) (a b : Text) (peers_a peers_b : Peers)
      → IsConsistent env m
      → IsDistinct (side a m peers_a ++ side b m peers_b)
      → runtime_state env a (some m) peers_a ≡ healthy
      → runtime_state env b (some m) peers_b ≢ healthy
  healthy_not_both m a b peers_a peers_b c apart ha hb =
      let (ma, qa) = (runtime_state_healthy_iff a m peers_a c).0 ha in
      let (mb, qb) = (runtime_state_healthy_iff b m peers_b c).0 hb in
      let both : length (side a m peers_a ++ side b m peers_b) ≤ length m.snapshot.members =
        length-le_of_IsWithin (side a m peers_a ++ side b m peers_b) m.snapshot.members apart
          (λ x k. member x (both_sides x ma mb k)) in
      omega (arith, length-append (side a m peers_a) (side b m peers_b))
    where
      both_sides :
          (x : Text)
          → is_member env m a ≡ true
          → is_member env m b ≡ true
          → contains x (side a m peers_a ++ side b m peers_b) ≡ true
          → is_member env m x ≡ true
      both_sides x ma mb k = ground (
        arith,
        contains-append x (side a m peers_a) (side b m peers_b),
        side-within a m peers_a ma x,
        side-within b m peers_b mb x,
      )

      member : (x : Text) → is_member env m x ≡ true → contains x m.snapshot.members ≡ true
      member x h = sym (c.set_is_members x) ∙ is_member-set m x h
