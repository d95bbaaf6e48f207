-- ===== src/Network/Bootstrap/Resolved.antt =====
-- Which peers Resolve finds.
use p2pos.Text.Order.{same_comm, same_iff}
use p2pos.Config.{Config, Connection}
use p2pos.Text.Sorted.{IsDistinct}
use p2pos.Network.Node.{AddrInfo}
use p2pos.Network.Bootstrap.{
  multiaddr_parse_failed, dns_parse_failed, dns_query_failed, add_connections, add_values, resolve,
  add_connection, values_of, lookup_bootstrap_txt, merge_peer_addr_info, BootstrapError, add_value,
  merge_into,
}
use p2pos.Text.{is_blank, codes, same, contains, Text}
use p2pos.Common.{
  Bool-cases, ◌∙◌, subst, sym, ap, Option-cases, map, [], ◌||◌, ◌&&◌, ◌++◌, ◌∷◌, ◌≡◌, if◌then◌else◌,
  Bool, Option, List, not, arith, refl, inr, inl, false, some, none,
}

-- The ids of some peers.
abbrev pub ids_of : List AddrInfo → List Text
ids_of = map (λ p. p.id)

contains-merge_into :
    (a : Text) (p : AddrInfo) (peers : List AddrInfo)
    → contains a (ids_of (merge_into p peers)) ≡ (same a p.id || contains a (ids_of peers))
unfolding merge_into
contains-merge_into a p [] = refl
contains-merge_into a p (q ∷ rest) =
    ground (arith, contains-merge_into a p rest, same_iff p.id q.id)

merge_into-IsDistinct :
    (p : AddrInfo) (peers : List AddrInfo)
    → IsDistinct (ids_of peers)
    → IsDistinct (ids_of (merge_into p peers))
unfolding merge_into
merge_into-IsDistinct p [] d = (refl, tt)
merge_into-IsDistinct p (q ∷ rest) d =
    ground (
      arith,
      merge_into-IsDistinct p rest d.1,
      contains-merge_into q.id p rest,
      same_comm p.id q.id,
    )

module _ (lookup_txt : Text → Option (List Text)) (parse_p2p_addr : Text → Option AddrInfo) where
  abbrev Acc : Type 0
  Acc = List AddrInfo × List BootstrapError

  -- The peer of an address is one that Resolve may return: not the node itself, and named.
  unfoldable pub is_named : Text → Text → Text → Bool
  is_named self a value = elim (parse_p2p_addr value) [
    | none ↦ false
    | some p ↦ same a p.id && not (same p.id self) && not (is_blank p.id)
  ]

  -- Whether some connection names the peer.
  unfoldable pub any_named : Text → Text → List Text → Bool
  any_named self a [] = false
  any_named self a (v ∷ rest) = is_named self a v || any_named self a rest

  unfoldable pub addresses : Connection → List Text
  addresses conn =
      if same conn.kind (codes "dns")
      then elim (lookup_bootstrap_txt lookup_txt parse_p2p_addr conn.address) [
        | none ↦ []
        | some records ↦ values_of lookup_txt parse_p2p_addr records
      ]
      else if same conn.kind (codes "multiaddr")
      then conn.address ∷ []
      else []

  unfoldable pub all_addresses : List Connection → List Text
  all_addresses [] = []
  all_addresses (conn ∷ rest) = addresses conn ++ all_addresses rest

  -- What some addresses add to the peers.
  abbrev Adds : Text → Acc → List Text → Acc → Type 0
  Adds self before values after =
      (IsDistinct (ids_of before.0) → IsDistinct (ids_of after.0))
      × ((a : Text)
          → contains a (ids_of after.0) ≡ (contains a (ids_of before.0) || any_named self a values))

  add_value-Adds :
      (self : Text) (failure : BootstrapError) (acc : Acc) (v : Text)
      → Adds self acc (v ∷ []) (add_value lookup_txt parse_p2p_addr self failure acc v)
  unfolding add_value merge_peer_addr_info any_named is_named
  add_value-Adds self failure (peers, errs) v = elim (Option-cases (parse_p2p_addr v)) [
    | inl h ↦ rw (add_value, is_named, h) (λ d. d, λ a. ground arith)
    | inr (p, h) ↦
        rw (add_value, is_named, h)
          (
            λ d. ground (arith, merge_into-IsDistinct p peers d),
            λ a. ground (arith, contains-merge_into a p peers),
          )
  ]

  any_named-append :
      (self a : Text) (xs ys : List Text)
      → any_named self a (xs ++ ys) ≡ (any_named self a xs || any_named self a ys)
  unfolding any_named
  any_named-append self a [] ys = refl
  any_named-append self a (x ∷ xs) ys = ground (arith, any_named-append self a xs ys)

  Adds-then :
      (self : Text) (before mid after : Acc) (xs ys : List Text)
      → Adds self before xs mid
      → Adds self mid ys after
      → Adds self before (xs ++ ys) after
  Adds-then self before mid after xs ys (d, c) (e, g) =
      (λ k. e (d k), λ a. g a ∙ ground (arith, c a, any_named-append self a xs ys))

  Adds-nothing : (self : Text) (before after : Acc) → before.0 ≡ after.0 → Adds self before [] after
  unfolding any_named
  Adds-nothing self before after e = (
    λ d. subst (λ x. IsDistinct (ids_of x)) e d,
    λ a. ap (λ x. contains a (ids_of x)) (sym e) ∙ ground arith,
  )

  add_values-Adds :
      (self : Text) (failure : BootstrapError) (acc : Acc) (values : List Text)
      → Adds self acc values (add_values lookup_txt parse_p2p_addr self failure acc values)
  unfolding add_values
  add_values-Adds self failure acc [] = Adds-nothing self acc acc refl
  add_values-Adds self failure acc (v ∷ rest) =
      let next = add_value lookup_txt parse_p2p_addr self failure acc v in
      Adds-then self acc next (add_values lookup_txt parse_p2p_addr self failure next rest) (v ∷ [])
        rest (add_value-Adds self failure acc v) (add_values-Adds self failure next rest)

  add_connection-Adds :
      (self : Text) (acc : Acc) (conn : Connection)
      → Adds self acc (addresses conn) (add_connection lookup_txt parse_p2p_addr self acc conn)
  unfolding add_connection addresses
  add_connection-Adds self acc conn = elim (Bool-cases (same conn.kind (codes "dns"))) [
    | inl h ↦ elim (Option-cases (lookup_bootstrap_txt lookup_txt parse_p2p_addr conn.address)) [
      | inl k ↦
          rw (add_connection, addresses, h, k)
            (Adds-nothing self acc (acc.0, acc.1 ++ dns_query_failed ∷ []) refl)
      | inr (records, k) ↦
          rw (add_connection, addresses, h, k)
            (add_values-Adds self dns_parse_failed acc
              (values_of lookup_txt parse_p2p_addr records))
    ]
    | inr h ↦ elim (Bool-cases (same conn.kind (codes "multiaddr"))) [
      | inl k ↦
          rw (add_connection, addresses, h, k)
            (add_value-Adds self multiaddr_parse_failed acc conn.address)
      | inr k ↦ rw (add_connection, addresses, h, k) (Adds-nothing self acc acc refl)
    ]
  ]

  add_connections-Adds :
      (self : Text) (acc : Acc) (conns : List Connection)
      → Adds self acc
          (all_addresses conns)
          (add_connections lookup_txt parse_p2p_addr self acc conns)
  unfolding add_connections all_addresses
  add_connections-Adds self acc [] = Adds-nothing self acc acc refl
  add_connections-Adds self acc (conn ∷ rest) =
      let next = add_connection lookup_txt parse_p2p_addr self acc conn in
      Adds-then self acc next (add_connections lookup_txt parse_p2p_addr self next rest)
        (addresses conn) (all_addresses rest) (add_connection-Adds self acc conn)
        (add_connections-Adds self next rest)

  -- Resolve returns exactly the peers that some address of the configuration names, other than the
  -- node itself and one without an id, and each of them once, whatever else fails on the way.
  pub contains-resolve :
      (self : Text) (config : Config)
      → IsDistinct (ids_of (resolve lookup_txt parse_p2p_addr self config).0)
        × ((a : Text)
            → contains a (ids_of (resolve lookup_txt parse_p2p_addr self config).0)
              ≡ any_named self a (all_addresses config.init_connections))
  unfolding resolve
  contains-resolve self config =
      let (d, c) = add_connections-Adds self ([], []) config.init_connections in (d tt, c)
