-- ===== src/Network/Start.antt =====
-- internal/network/node.go: what NewNode decides, the relays that a node offers to itself, and the
-- end of a node.
pub mod Relays
pub mod Closing
use p2pos.Events.Payload.{Event, shutdown_requested}
use p2pos.Text.{same, trim_space, to_lower, is_blank, codes, Text}
use p2pos.Common.{
  [], ◌==◌, ◌+◌, ◌||◌, ◌&&◌, ◌++◌, ◌∷◌, if◌then◌else◌, Bool, Option, List, ℕ, not, leb, is_empty,
  false, true, some, none,
}
use p2pos.Config.{ℤ, pos, negsuc}
use p2pos.Network.Node.{AddrInfo}

-- An address of an interface: of IPv4, or another.
pub data IfaceAddr : Type 0 where
  ipv4 : ℕ → ℕ → ℕ → ℕ → IfaceAddr
  other_addr : IfaceAddr

-- An interface: net.FlagUp, and its addresses, unless they cannot be read.
pub record Iface : Type 0 where
  pub up : Bool
  pub addrs : Option (List IfaceAddr)

-- The ranges of package net for IPv4: IsLoopback, IsLinkLocalUnicast, IsPrivate, and
-- IsGlobalUnicast.
abbrev pub is_loopback : ℕ → Bool
is_loopback a = a == 127

abbrev pub is_link_local : ℕ → ℕ → Bool
is_link_local a b = a == 169 && b == 254

abbrev pub is_private : ℕ → ℕ → Bool
is_private a b = a == 10 || a == 172 && leb 16 b && leb b 31 || a == 192 && b == 168

abbrev pub is_global_unicast : ℕ → ℕ → ℕ → ℕ → Bool
is_global_unicast a b c d =
    not (a == 255 && b == 255 && c == 255 && d == 255)
    && not (a == 0 && b == 0 && c == 0 && d == 0)
    && not (is_loopback a)
    && not (leb 224 a && leb a 239)
    && not (is_link_local a b)

-- 100.64.0.0/10
abbrev pub is_cgnat : ℕ → ℕ → Bool
is_cgnat a b = a == 100 && leb 64 b && leb b 127

unfoldable pub is_public_addr : IfaceAddr → Bool
is_public_addr other_addr = false
is_public_addr (ipv4 a b c d) =
    if not (is_global_unicast a b c d) || is_private a b || is_loopback a || is_link_local a b
    then false
    else not (is_cgnat a b)

unfoldable pub any_public : List IfaceAddr → Bool
any_public [] = false
any_public (a ∷ rest) = is_public_addr a || any_public rest

unfoldable pub iface_public : Iface → Bool
iface_public i =
    if not i.up then false else elim i.addrs [ none ↦ false | some addrs ↦ any_public addrs ]

unfoldable pub any_iface_public : List Iface → Bool
any_iface_public [] = false
any_iface_public (i ∷ rest) = iface_public i || any_iface_public rest

-- hasPublicIPv4, on what net.Interfaces returns
unfoldable pub has_public_ipv4 : Option (List Iface) → Bool
has_public_ipv4 none = false
has_public_ipv4 (some ifaces) = any_iface_public ifaces

unfoldable pub should_enable_public_service : Text → Option (List Iface) → Bool
should_enable_public_service mode ifaces =
    let name = to_lower (trim_space mode) in
    if same name (codes "public")
    then true
    else if same name (codes "private")
    then false
    else has_public_ipv4 ifaces

-- The switch of NewNode on the mode of AutoTLS: whether a manager is made, and with which `force`.
unfoldable pub auto_tls_plan : Text → Bool → Option Bool
auto_tls_plan mode enable_public =
    let name = to_lower (trim_space mode) in
    if same name (codes "on")
    then some true
    else if same name (codes "auto")
    then if enable_public then some false else none
    else if same name (codes "off")
    then none
    else if enable_public
    then some false
    else none

-- What createAutoTLSManager appends to the addresses; `show` prints a number, `domain` is
-- p2pforge.DefaultForgeDomain.
unfoldable pub auto_tls_port : ℤ → ℤ
auto_tls_port (pos p) = if p == 0 then pos 443 else pos p
auto_tls_port (negsuc p) = pos 443

unfoldable pub auto_tls_addrs : (ℤ → Text) → Text → ℤ → List Text → List Text
auto_tls_addrs show domain given addrs =
    let ending = codes "/tls/sni/*." ++ (domain ++ codes "/ws") in
    let port = show (auto_tls_port given) in
    addrs
    ++ (codes "/ip4/0.0.0.0/tcp/" ++ (port ++ ending))
      ∷ (codes "/ip6/::/tcp/" ++ (port ++ ending))
      ∷ []

-- What the host says of a peer of `Network().Peers()`: whether it is connected, and its entry in
-- the peer store.
pub record Seen : Type 0 where
  pub connected : Bool
  pub info : AddrInfo

-- The goroutine of relayPeerSource: what it sends before it closes the channel. The channel has
-- room for `num`, so a send never waits; `ctx_done` tells for each send by its number whether the
-- select takes the done context instead.
unfoldable pub send_relays : (ℕ → Bool) → ℕ → ℕ → List Seen → List AddrInfo
send_relays ctx_done num sent_count [] = []
send_relays ctx_done num sent_count (p ∷ rest) =
    let skipped = send_relays ctx_done num sent_count rest in
    let taken = send_relays ctx_done num (sent_count + 1) rest in
    if leb num sent_count
    then []
    else if not p.connected
    then skipped
    else if is_blank p.info.id || is_empty p.info.addrs
    then skipped
    else if ctx_done sent_count
    then []
    else p.info ∷ taken

-- relayPeerSource; there is no host before NewNode has made it.
unfoldable pub relay_peer_source : (ℕ → Bool) → ℕ → Option (List Seen) → List AddrInfo
relay_peer_source ctx_done num none = []
relay_peer_source ctx_done num (some peers) = send_relays ctx_done num 0 peers

-- The fields that Close uses: closeOnce, autoTLSMgr, and closeErr; and how often the manager was
-- stopped and the host closed.
pub record Ending : Type 0 where
  pub close_once : Bool
  pub has_auto_tls : Bool
  pub close_err : Bool
  pub stops : ℕ
  pub host_closes : ℕ

-- Node.Close; `fails` tells whether Host.Close returns an error, and the result whether Close does.
unfoldable pub close : Bool → Ending → Ending × Bool
close fails n = if n.close_once then (n, n.close_err) else (
  record n {
    close_once = true;
    close_err = fails;
    stops = if n.has_auto_tls then n.stops + 1 else n.stops;
    host_closes = n.host_closes + 1;
  },
  fails,
)

-- What the select of StartShutdownHandler finds; an event comes with what Host.Close would return.
pub data HandlerSignal : Type 0 where
  context_done events_closed : HandlerSignal
  got : Event → Bool → HandlerSignal

abbrev pub asks_shutdown : Event → Bool
asks_shutdown (shutdown_requested reason) = true
asks_shutdown _ = false

-- The goroutine of StartShutdownHandler: the node, and whether the goroutine has returned.
unfoldable pub handle_shutdown : List HandlerSignal → Ending → Ending × Bool
handle_shutdown [] n = (n, false)
handle_shutdown (context_done ∷ rest) n = (n, true)
handle_shutdown (events_closed ∷ rest) n = (n, true)
handle_shutdown (got evt fails ∷ rest) n =
    let waiting = handle_shutdown rest n in
    if asks_shutdown evt then ((close fails n).0, true) else waiting

-- StartShutdownHandler; without a bus there is no goroutine.
unfoldable pub start_shutdown_handler : Bool → List HandlerSignal → Ending → Ending × Bool
start_shutdown_handler has_bus signals n = if has_bus then handle_shutdown signals n else (n, true)
