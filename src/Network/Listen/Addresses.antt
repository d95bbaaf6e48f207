-- ===== src/Network/Listen/Addresses.antt =====
-- A node listens somewhere, on every address once.
use p2pos.Network.Listen.{
  any_hosts, ListenError, build_listen_multiaddrs, add_listens, add_hosts, add_listen, hosts_of,
  host_addresses,
}
use p2pos.Text.Sorted.{contains-add_all, add_all-IsDistinct, add_all, contains-append, IsDistinct}
use p2pos.Text.{codes, contains_text, trim_space, contains, is_blank, Text}
use p2pos.Common.{
  false, true, Result, Result-cases, ◌≢◌, subst, sym, ap, is_empty, Bool-cases, Option-cases, [],
  ◌||◌, ◌∙◌, ◌++◌, ◌∷◌, ◌≡◌, if◌then◌else◌, Bool, Option, List, arith, err, ok, refl, inr, inl,
  some, none,
}

ok-inj : (x y : List Text) {r : Result ListenError (List Text)} → r ≡ ok x → r ≡ ok y → x ≡ y
ok-inj x y h k = cc

module _ (split_host_port : Text → Option (Text × Text)) (parse_ip : Text → Option Bool) where
  -- What the loops add for a list of listen addresses, with no regard to repetitions.
  unfoldable pub asked_hosts : List Text → Text → List Text
  asked_hosts [] port = []
  asked_hosts (host ∷ rest) port = elim (parse_ip host) [
    | none ↦ []
    | some is_ip4 ↦
        host_addresses split_host_port parse_ip is_ip4 host port ++ asked_hosts rest port
  ]

  unfoldable pub asked_of : Text → List Text
  asked_of raw =
      if is_blank (trim_space raw)
      then []
      else elim (hosts_of split_host_port parse_ip (trim_space raw)) [
        | err e ↦ []
        | ok (hosts, port) ↦ asked_hosts hosts port
      ]

  unfoldable pub asked : List Text → List Text
  asked [] = []
  asked (raw ∷ rest) = asked_of raw ++ asked rest

  -- What a turn of the loop adds: each asked address, and none twice.
  abbrev pub Adds : List Text → List Text → List Text → Type 0
  Adds addrs more next =
      (IsDistinct addrs → IsDistinct next)
      × ((b : Text) → contains b next ≡ (contains b addrs || contains b more))

  add_hosts-Adds :
      (addrs hosts : List Text) (port : Text) (next : List Text)
      → add_hosts split_host_port parse_ip addrs hosts port ≡ ok next
      → Adds addrs (asked_hosts hosts port) next
  unfolding add_hosts asked_hosts
  add_hosts-Adds addrs [] port next h = (λ d. ground arith, λ b. ground arith)
  add_hosts-Adds addrs (host ∷ rest) port next h = elim (Option-cases (parse_ip host)) [
    | inl k ↦ absurd (cc (rw (add_hosts, k) at h))
    | inr (is_ip4, k) ↦
        let here = host_addresses split_host_port parse_ip is_ip4 host port in
        let (d, c) = add_hosts-Adds (add_all addrs here) rest port next (rw (add_hosts, k) at h) in
        (
          λ e. d (add_all-IsDistinct addrs here e),
          λ b.
              c b
              ∙ rw (asked_hosts, k)
                  (ground (
                    arith,
                    contains-add_all b addrs here,
                    contains-append b here (asked_hosts rest port),
                  )),
        )
  ]

  add_listen-Adds :
      (addrs : List Text) (raw : Text) (next : List Text)
      → add_listen split_host_port parse_ip addrs raw ≡ ok next
      → Adds addrs (asked_of raw) next
  unfolding add_listen asked_of
  add_listen-Adds addrs raw next h = elim (Bool-cases (is_blank (trim_space raw))) [
    | inl k ↦
        let e = ok-inj addrs next refl (rw (add_listen, k) at h) in
        rw (asked_of, k, ← e) (λ d. d, λ b. ground arith)
    | inr k ↦ elim (Result-cases (hosts_of split_host_port parse_ip (trim_space raw))) [
      | inl ((hosts, port), l) ↦
          rw (asked_of, k, l) (add_hosts-Adds addrs hosts port next (rw (add_listen, k, l) at h))
      | inr (e, l) ↦ absurd (cc (rw (add_listen, k, l) at h))
    ]
  ]

  add_listens-Adds :
      (addrs listens next : List Text)
      → add_listens split_host_port parse_ip addrs listens ≡ ok next
      → Adds addrs (asked listens) next
  unfolding add_listens asked
  add_listens-Adds addrs [] next h = (λ d. ground arith, λ b. ground arith)
  add_listens-Adds addrs (raw ∷ rest) next h =
      elim (Result-cases (add_listen split_host_port parse_ip addrs raw)) [
        | inl (mid, k) ↦
            let (d1, c1) = add_listen-Adds addrs raw mid k in
            let (d2, c2) = add_listens-Adds mid rest next (rw (add_listens, k) at h) in
            (
              λ e. d2 (d1 e),
              λ b.
                  c2 b
                  ∙ ap (λ x. x || contains b (asked rest)) (c1 b)
                  ∙ ground (arith, contains-append b (asked_of raw) (asked rest)),
            )
        | inr (e, k) ↦ absurd (cc (rw (add_listens, k) at h))
      ]

  -- A successful result has exactly what the loops add, each once, and there is one at least.
  pub build_listen_multiaddrs-asked :
      (listens addrs : List Text)
      → build_listen_multiaddrs split_host_port parse_ip listens ≡ ok addrs
      → IsDistinct addrs
        × (addrs ≢ [])
        × ((b : Text) → contains b addrs ≡ contains b (asked listens))
  unfolding build_listen_multiaddrs
  build_listen_multiaddrs-asked listens addrs h =
      elim (Result-cases (add_listens split_host_port parse_ip [] listens)) [
        | inr (e, k) ↦ absurd (cc (rw (build_listen_multiaddrs, k) at h))
        | inl (found, k) ↦ elim (Bool-cases (is_empty found)) [
          | inl z ↦ absurd (cc (rw (build_listen_multiaddrs, k, z) at h))
          | inr z ↦
              let e : found ≡ addrs =
                ok-inj found addrs refl (rw (build_listen_multiaddrs, k, z) at h) in
              let (d, c) = add_listens-Adds [] listens found k in
              (
                subst IsDistinct e (d tt),
                λ nil. absurd (ground arith),
                λ b. ap (contains b) (sym e) ∙ c b,
              )
        ]
      ]

  -- The TCP and the QUIC address of a host.
  abbrev pub both_addresses : Text → Text → Text → List Text
  both_addresses protocol host port =
      (protocol ++ (host ++ (codes "/tcp/" ++ port)))
      ∷ (protocol ++ (host ++ (codes "/udp/" ++ (port ++ codes "/quic-v1"))))
      ∷ []

  -- The addresses for a port on every host.
  abbrev pub everywhere : Text → List Text
  everywhere port =
      (codes "/ip4/0.0.0.0/tcp/" ++ port)
      ∷ (codes "/ip4/0.0.0.0/udp/" ++ (port ++ codes "/quic-v1"))
      ∷ (codes "/ip6/::/tcp/" ++ port)
      ∷ (codes "/ip6/::/udp/" ++ (port ++ codes "/quic-v1"))
      ∷ []

  unfoldable pub wanted_host : Text → Text → List Text
  wanted_host host port = if is_blank host then everywhere port else elim (parse_ip host) [
    | none ↦ []
    | some true ↦ both_addresses (codes "/ip4/") host port
    | some false ↦ both_addresses (codes "/ip6/") host port
  ]

  -- What a listen address wants: a port alone, or a host and a port.
  unfoldable pub wanted_by : Text → List Text
  wanted_by listen =
      if is_blank listen
      then []
      else if contains_text listen (codes ":")
      then elim (split_host_port listen) [ none ↦ [] | some (host, port) ↦ wanted_host host port ]
      else everywhere listen

  unfoldable pub wanted : List Text → List Text
  wanted [] = []
  wanted (raw ∷ rest) = wanted_by (trim_space raw) ++ wanted rest

  -- Of net.ParseIP: the two hosts for "every host" are an IPv4 and an IPv6 address.
  pub record AnyHostLaws : Type 0 where
    pub any_ip4 : parse_ip (codes "0.0.0.0") ≡ some true
    pub any_ip6 : parse_ip (codes "::") ≡ some false

  asked_hosts-any : (port : Text) → AnyHostLaws → asked_hosts any_hosts port ≡ everywhere port
  unfolding asked_hosts host_addresses
  asked_hosts-any port laws = rw (asked_hosts, laws.any_ip4, laws.any_ip6) refl

  asked_hosts-wanted_host :
      (host port : Text)
      → is_blank host ≡ false
      → asked_hosts (host ∷ []) port ≡ wanted_host host port
  unfolding asked_hosts host_addresses wanted_host
  asked_hosts-wanted_host host port h = elim (Option-cases (parse_ip host)) [
    | inl k ↦ rw (asked_hosts, wanted_host, h, k) refl
    | inr (true, k) ↦ rw (asked_hosts, wanted_host, h, k) refl
    | inr (false, k) ↦ rw (asked_hosts, wanted_host, h, k) refl
  ]

  wanted_host_blank :
      (host port : Text) → is_blank host ≡ true → wanted_host host port ≡ everywhere port
  unfolding wanted_host
  wanted_host_blank host port h = rw (wanted_host, h) refl

  asked_of-wanted_by : (raw : Text) → AnyHostLaws → asked_of raw ≡ wanted_by (trim_space raw)
  unfolding asked_of wanted_by hosts_of
  asked_of-wanted_by raw laws = elim (Bool-cases (is_blank (trim_space raw))) [
    | inl z ↦ rw (asked_of, wanted_by, z) refl
    | inr z ↦ elim (Bool-cases (contains_text (trim_space raw) (codes ":"))) [
      | inr c ↦ rw (asked_of, wanted_by, z, hosts_of, c) (asked_hosts-any (trim_space raw) laws)
      | inl c ↦ elim (Option-cases (split_host_port (trim_space raw))) [
        | inl k ↦ rw (asked_of, wanted_by, z, hosts_of, c, k) refl
        | inr ((host, port), k) ↦ elim (Bool-cases (is_blank host)) [
          | inl b ↦
              rw (asked_of, wanted_by, z, hosts_of, c, k, b)
                (asked_hosts-any port laws ∙ sym (wanted_host_blank host port b))
          | inr b ↦
              rw (asked_of, wanted_by, z, hosts_of, c, k, b) (asked_hosts-wanted_host host port b)
        ]
      ]
    ]
  ]

  asked-wanted : (listens : List Text) → AnyHostLaws → asked listens ≡ wanted listens
  unfolding asked wanted
  asked-wanted [] laws = refl
  asked-wanted (raw ∷ rest) laws =
      ap (λ x. x ++ asked rest) (asked_of-wanted_by raw laws)
      ∙ ap (λ x. wanted_by (trim_space raw) ++ x) (asked-wanted rest laws)

  -- A successful result has exactly the wanted addresses, each once, and there is one at least. What
  -- is wanted is written out: `/ip4/HOST/tcp/PORT` and `/ip4/HOST/udp/PORT/quic-v1` for every listen
  -- address that is not blank and has an IPv4 host, the same with `/ip6/` for an IPv6 host, and all
  -- four on 0.0.0.0 and `::` where the host is empty or only a port is given. net.ParseIP knows
  -- 0.0.0.0 as an IPv4 and `::` as an IPv6 address.
  pub build_listen_multiaddrs-wanted :
      (listens addrs : List Text)
      → AnyHostLaws
      → build_listen_multiaddrs split_host_port parse_ip listens ≡ ok addrs
      → IsDistinct addrs
        × (addrs ≢ [])
        × ((b : Text) → contains b addrs ≡ contains b (wanted listens))
  build_listen_multiaddrs-wanted listens addrs laws h =
      let (d, some_there, c) = build_listen_multiaddrs-asked listens addrs h in
      (d, some_there, λ b. c b ∙ ap (contains b) (asked-wanted listens laws))
