-- ===== src/Network/Bootstrap.antt =====
-- internal/network/bootstrap.go: the peers that a node first connects to.
pub mod Resolved
pub mod Discovery
use p2pos.Config.{Config, Connection}
use p2pos.Network.Node.{AddrInfo}
use p2pos.Text.{
  has_suffix, trim_prefix, has_prefix, same, is_blank, codes, contains, trim_space, trim_suffix,
  Text,
}
use p2pos.Common.{
  [], ◌&&◌, ◌++◌, ◌∷◌, if◌then◌else◌, Option, List, leb, is_empty, length, some, none,
}

pub data BootstrapError : Type 0 where
  dns_query_failed dns_parse_failed multiaddr_parse_failed : BootstrapError

-- parseTXTRecordValues; `value[1 : len(value)-1]` of a value that is quoted
unfoldable pub unquote : Text → Text
unquote [] = []
unquote (c ∷ s) = trim_suffix s (codes "\"")

unfoldable pub parse_txt_record_values : Text → List Text
parse_txt_record_values raw =
    let value = trim_space raw in
    if is_blank value
    then []
    else let bare =
        if has_prefix value (codes "dnsaddr=")
        then trim_space (trim_prefix value (codes "dnsaddr="))
        else value in
      let plain =
        if has_prefix bare (codes "\"") && has_suffix bare (codes "\"") && leb 2 (length bare)
        then trim_space (unquote bare)
        else bare in
      if is_blank plain then [] else plain ∷ []

-- The loop over the addresses of a peer that is known.
unfoldable pub merge_addrs : List Text → List Text → List Text
merge_addrs existing [] = existing
merge_addrs existing (a ∷ rest) =
    merge_addrs (if contains a existing then existing else existing ++ a ∷ []) rest

-- mergePeerAddrInfo on a map by peer id; nil does not occur, since a parse that fails has no peer.
unfoldable pub merge_into : AddrInfo → List AddrInfo → List AddrInfo
merge_into p [] = p ∷ []
merge_into p (q ∷ rest) =
    let others = merge_into p rest in
    if same p.id q.id then record q { addrs = merge_addrs q.addrs p.addrs } ∷ rest else q ∷ others

unfoldable pub merge_peer_addr_info : List AddrInfo → AddrInfo → List AddrInfo
merge_peer_addr_info peers p = if is_blank p.id then peers else merge_into p peers

-- The DNS resolver, which fails or answers with records, and ParseP2PAddr.
module _ (lookup_txt : Text → Option (List Text)) (parse_p2p_addr : Text → Option AddrInfo) where
  unfoldable pub lookup_bootstrap_txt : Text → Option (List Text)
  lookup_bootstrap_txt domain =
      let base = trim_space domain in
      if is_blank base
      then none
      else if has_prefix base (codes "_dnsaddr.")
      then lookup_txt base
      else elim (lookup_txt (codes "_dnsaddr." ++ trim_suffix base (codes "."))) [
        | none ↦ lookup_txt base
        | some records ↦ if is_empty records then lookup_txt base else some records
      ]

  -- The addresses that a connection names, and the errors of their lookup.
  unfoldable pub values_of : List Text → List Text
  values_of [] = []
  values_of (record_text ∷ rest) = parse_txt_record_values record_text ++ values_of rest

  -- One address: the peers and the errors after it.
  unfoldable pub add_value :
      Text
      → BootstrapError
      → List AddrInfo × List BootstrapError
      → Text
      → List AddrInfo × List BootstrapError
  add_value self failure (peers, errs) value = elim (parse_p2p_addr value) [
    | none ↦ (peers, errs ++ failure ∷ [])
    | some p ↦ if same p.id self then (peers, errs) else (merge_peer_addr_info peers p, errs)
  ]

  unfoldable pub add_values :
      Text
      → BootstrapError
      → List AddrInfo × List BootstrapError
      → List Text
      → List AddrInfo × List BootstrapError
  add_values self failure acc [] = acc
  add_values self failure acc (v ∷ rest) =
      add_values self failure (add_value self failure acc v) rest

  -- One turn of the loop over InitConnections.
  unfoldable pub add_connection :
      Text → List AddrInfo × List BootstrapError → Connection → List AddrInfo × List BootstrapError
  add_connection self acc conn =
      if same conn.kind (codes "dns")
      then elim (lookup_bootstrap_txt conn.address) [
        | none ↦ (acc.0, acc.1 ++ dns_query_failed ∷ [])
        | some records ↦ add_values self dns_parse_failed acc (values_of records)
      ]
      else if same conn.kind (codes "multiaddr")
      then add_value self multiaddr_parse_failed acc conn.address
      else acc

  unfoldable pub add_connections :
      Text
      → List AddrInfo × List BootstrapError
      → List Connection
      → List AddrInfo × List BootstrapError
  add_connections self acc [] = acc
  add_connections self acc (conn ∷ rest) = add_connections self (add_connection self acc conn) rest

  -- Resolve
  unfoldable pub resolve : Text → Config → List AddrInfo × List BootstrapError
  resolve self config = add_connections self ([], []) config.init_connections
