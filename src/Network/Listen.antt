-- ===== src/Network/Listen.antt =====
-- internal/network/node.go, buildListenMultiaddrs: the addresses that a node listens on.
pub mod Addresses
use p2pos.Text.Sorted.{add_all}
use p2pos.Text.{is_blank, trim_space, contains, codes, contains_text, Text}
use p2pos.Common.{
  [], ◌>>=◌, ◌>>◌, ◌>>=◌, ◌++◌, ◌∷◌, if◌then◌else◌, Result, Bool, Option, List, or_err, is_empty,
  err, ok, some, none,
}

pub data ListenError : Type 0 where
  invalid_listen_address invalid_listen_host no_listen_addresses : ListenError

abbrev pub any_hosts : List Text
any_hosts = codes "0.0.0.0" ∷ codes "::" ∷ []

-- net.SplitHostPort, and net.ParseIP with To4: whether an address is of IPv4.
module _ (split_host_port : Text → Option (Text × Text)) (parse_ip : Text → Option Bool) where
  -- tcpAddr and quicAddr
  unfoldable pub host_addresses : Bool → Text → Text → List Text
  host_addresses is_ip4 host port =
      let base = (if is_ip4 then codes "/ip4/" else codes "/ip6/") ++ host in
      (base ++ (codes "/tcp/" ++ port))
      ∷ (base ++ (codes "/udp/" ++ (port ++ codes "/quic-v1")))
      ∷ []

  -- The hosts and the port of a listen address.
  unfoldable pub hosts_of : Text → Result ListenError (List Text × Text)
  hosts_of listen =
      if contains_text listen (codes ":")
      then (do
        (host, port) ← or_err (split_host_port listen) invalid_listen_address
        ok (if is_blank host then any_hosts else host ∷ [], port))
      else ok (any_hosts, listen)

  -- The loop over the hosts; `seen` holds what `addrs` holds.
  unfoldable pub add_hosts : List Text → List Text → Text → Result ListenError (List Text)
  add_hosts addrs [] port = ok addrs
  add_hosts addrs (host ∷ rest) port = elim (parse_ip host) [
    | none ↦ err invalid_listen_host
    | some is_ip4 ↦ add_hosts (add_all addrs (host_addresses is_ip4 host port)) rest port
  ]

  unfoldable pub add_listen : List Text → Text → Result ListenError (List Text)
  add_listen addrs raw =
      let listen = trim_space raw in
      if is_blank listen
      then ok addrs
      else elim (hosts_of listen) [ err e ↦ err e | ok (hosts, port) ↦ add_hosts addrs hosts port ]

  unfoldable pub add_listens : List Text → List Text → Result ListenError (List Text)
  add_listens addrs [] = ok addrs
  add_listens addrs (raw ∷ rest) = elim (add_listen addrs raw) [
    | err e ↦ err e
    | ok next ↦ add_listens next rest
  ]

  unfoldable pub build_listen_multiaddrs : List Text → Result ListenError (List Text)
  build_listen_multiaddrs listens = elim (add_listens [] listens) [
    | err e ↦ err e
    | ok addrs ↦ if is_empty addrs then err no_listen_addresses else ok addrs
  ]
