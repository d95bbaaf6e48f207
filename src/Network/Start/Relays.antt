-- ===== src/Network/Start/Relays.antt =====
-- Which peers a node offers as relays.
use p2pos.Network.Node.{AddrInfo}
use p2pos.Text.{is_blank}
use p2pos.Common.{
  ◌<◌, ◌∙◌, sym, ap, true, some, Bool-cases, [], ◌≤◌, ◌-◌, ◌+◌, ◌||◌, ◌&&◌, ◌∷◌, ◌≡◌, Bool, List, ℕ,
  not, arith, leb, is_empty, keep, length, refl, inr, inl, false, suc, zero,
}
use p2pos.Network.Start.{relay_peer_source, send_relays, Seen}

-- A peer that can be offered.
abbrev pub is_usable : Seen → Bool
is_usable p = p.connected && not (is_blank p.info.id || is_empty p.info.addrs)

unfoldable pub first_infos : ℕ → List Seen → List AddrInfo
first_infos n [] = []
first_infos zero (p ∷ rest) = []
first_infos (suc n) (p ∷ rest) = p.info ∷ first_infos n rest

first_infos_nil : (n : ℕ) → first_infos n [] ≡ []
unfolding first_infos
first_infos_nil n = refl

sub_zero : (n : ℕ) → n - 0 ≡ n
sub_zero n = omega arith

full_zero : (num sent_count : ℕ) → leb num sent_count ≡ true → num - sent_count ≡ 0
full_zero num sent_count h = ground arith

first_infos-zero : (peers : List Seen) → first_infos 0 peers ≡ []
unfolding first_infos
first_infos-zero [] = refl
first_infos-zero (p ∷ rest) = refl

first_infos-room :
    (num sent_count : ℕ) (p : Seen) (peers : List Seen)
    → sent_count < num
    → first_infos (num - sent_count) (p ∷ peers)
      ≡ p.info ∷ first_infos (num - (sent_count + 1)) peers
unfolding first_infos
first_infos-room num sent_count p peers h =
    let left : num - sent_count ≡ suc (num - (sent_count + 1)) = omega arith in
    ap (λ n. first_infos n (p ∷ peers)) left

send_relays-first :
    (num sent_count : ℕ) (peers : List Seen)
    → send_relays (λ _. false) num sent_count peers
      ≡ first_infos (num - sent_count) (keep is_usable peers)
unfolding send_relays keep
send_relays-first num sent_count [] = sym (first_infos_nil (num - sent_count))
send_relays-first num sent_count (p ∷ rest) = elim (Bool-cases (leb num sent_count)) [
  | inl full ↦ rw full (
      sym (
        ap (λ n. first_infos n (keep is_usable (p ∷ rest))) (full_zero num sent_count full)
        ∙ first_infos-zero (keep is_usable (p ∷ rest))))
  | inr room ↦ elim (Bool-cases (is_usable p)) [
    | inr bad ↦ ground (arith, send_relays-first num sent_count rest)
    | inl good ↦ ground (
      arith,
      send_relays-first num (sent_count + 1) rest,
      first_infos-room num sent_count p (keep is_usable rest) (ground arith),
    )
  ]
]

send_relays-length :
    (ctx_done : ℕ → Bool) (num sent_count : ℕ) (peers : List Seen)
    → sent_count ≤ num
    → sent_count + length (send_relays ctx_done num sent_count peers) ≤ num
unfolding send_relays
send_relays-length ctx_done num sent_count [] h = omega arith
send_relays-length ctx_done num sent_count (p ∷ rest) h = elim (Bool-cases (leb num sent_count)) [
  | inl full ↦ rw full (omega arith)
  | inr room ↦ ground (
    arith,
    send_relays-length ctx_done num sent_count rest h,
    send_relays-length ctx_done num (sent_count + 1) rest (ground arith),
  )
]

-- A node offers no more relays than it was asked for. If the request is not cancelled, they are
-- the first so many of its peers that are connected and known with an id and an address, in the
-- order of the peers.
pub relay_peer_source-first :
    (ctx_done : ℕ → Bool) (num : ℕ) (peers : List Seen)
    → (length (relay_peer_source ctx_done num (some peers)) ≤ num)
      × (relay_peer_source (λ _. false) num (some peers) ≡ first_infos num (keep is_usable peers))
unfolding relay_peer_source
relay_peer_source-first ctx_done num peers = (
  omega (arith, send_relays-length ctx_done num 0 peers (omega arith)),
  send_relays-first num 0 peers ∙ ap (λ n. first_infos n (keep is_usable peers)) (sub_zero num),
)
