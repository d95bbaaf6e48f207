-- ===== src/Config/Idempotent.antt =====
-- A configuration in normal form stays as it is.
use p2pos.Config.Normal.{
  trim_default_feed, normal_network_mode-cases, normal_auto_tls_mode-cases, normal_channel-cases,
}
use p2pos.Text.Trim.{trim_space_idem}
use p2pos.Config.{
  default_update_feed_url, negsuc, default_auto_tls_cache_dir, pos, listen_values, normal_port,
  normal_auto_tls_mode, normal_network_mode, Config, ℤ, normal_channel, or_default, normalize,
}
use p2pos.Text.{
  same, is_space, trim_right, lower, trim_left, to_lower, codes, is_blank, trim_space, Text,
}
use p2pos.Common.{◌∷◌, refl, Bool-cases, [], ◌≡◌, if◌then◌else◌, Bool, List, arith, inr, inl}

-- The values of the modes and of the channel are in normal form.
network_modes :
    (normal_network_mode (codes "auto") ≡ codes "auto")
    × (normal_network_mode (codes "public") ≡ codes "public")
    × (normal_network_mode (codes "private") ≡ codes "private")
unfolding normal_network_mode to_lower lower trim_space trim_left trim_right is_space same
network_modes = (refl, refl, refl)

channels :
    (normal_channel (codes "stable") ≡ codes "stable")
    × (normal_channel (codes "develop") ≡ codes "develop")
unfolding normal_channel to_lower lower trim_space trim_left trim_right is_space same
channels = (refl, refl)

auto_tls_modes :
    (enabled : Bool)
    → (normal_auto_tls_mode (codes "on") enabled ≡ codes "on")
      × (normal_auto_tls_mode (codes "off") enabled ≡ codes "off")
      × (normal_auto_tls_mode (codes "auto") enabled ≡ codes "auto")
unfolding normal_auto_tls_mode to_lower lower trim_space trim_left trim_right is_space same
auto_tls_modes enabled = (refl, refl, refl)

network_mode_idem : (t : Text) → normal_network_mode (normal_network_mode t) ≡ normal_network_mode t
network_mode_idem t = elim (normal_network_mode-cases t) [
  | inl h ↦ rw h network_modes.0
  | inr (inl h) ↦ rw h network_modes.1
  | inr (inr h) ↦ rw h network_modes.2
]

channel_idem : (t : Text) → normal_channel (normal_channel t) ≡ normal_channel t
channel_idem t = elim (normal_channel-cases t) [ inl h ↦ rw h channels.0 | inr h ↦ rw h channels.1 ]

auto_tls_mode_idem :
    (t : Text) (enabled : Bool)
    → normal_auto_tls_mode (normal_auto_tls_mode t enabled) enabled ≡ normal_auto_tls_mode t enabled
auto_tls_mode_idem t enabled = elim (normal_auto_tls_mode-cases t enabled) [
  | inl h ↦ rw h (auto_tls_modes enabled).0
  | inr (inl h) ↦ rw h (auto_tls_modes enabled).1
  | inr (inr h) ↦ rw h (auto_tls_modes enabled).2
]

port_idem : (p : ℤ) → normal_port (normal_port p) ≡ normal_port p
unfolding normal_port
port_idem (pos p) = ground arith
port_idem (negsuc p) = refl

or_default_idem :
    (t d : Text)
    → trim_space d ≡ d
    → or_default (trim_space (or_default (trim_space t) d)) d ≡ or_default (trim_space t) d
unfolding or_default
or_default_idem t d h = ground (arith, trim_space_idem t)

trim_defaults :
    (trim_space (codes "default") ≡ codes "default")
    × (trim_space default_auto_tls_cache_dir ≡ default_auto_tls_cache_dir)
unfolding trim_space trim_left trim_right is_space
trim_defaults = (refl, refl)

listen_values_idem : (l : List Text) → listen_values (listen_values l) ≡ listen_values l
listen_values_idem [] = refl
listen_values_idem (x ∷ l) = refl

abbrev normal_feed : Text → Text
normal_feed t = if is_blank (trim_space t) then default_update_feed_url else t

feed_idem : (t : Text) → normal_feed (normal_feed t) ≡ normal_feed t
feed_idem t = elim (Bool-cases (is_blank (trim_space t))) [
  | inl h ↦ rw (h, trim_default_feed) refl
  | inr h ↦ rw h (rw h refl)
]

-- Normalizing is idempotent: Update of a configuration in normal form stores it as it is.
pub normalize_idem : (c : Config) → normalize (normalize c) ≡ normalize c
unfolding normalize
normalize_idem c = simp (
  normalize, listen_values_idem, network_mode_idem, channel_idem, auto_tls_mode_idem, port_idem,
  or_default_idem, trim_defaults.0, trim_defaults.1, trim_space_idem, feed_idem,
)
