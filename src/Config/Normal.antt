-- ===== src/Config/Normal.antt =====
-- The normal form of a configuration.
use p2pos.Text.Order.{same_iff}
use p2pos.Config.{
  default_update_feed_url, negsuc, pos, listen_values, normal_auto_tls_mode, normal_network_mode,
  Config, ℤ, normal_channel,
}
use p2pos.Text.{is_space, trim_right, trim_left, to_lower, codes, trim_space, Text}
use p2pos.Common.{
  ◌↔◌, is_empty, ◌∷◌, refl, [], ◌⊎◌, ◌<◌, ◌≤◌, ◌≢◌, ◌≡◌, if◌then◌else◌, Bool, List, arith,
}

abbrev pub IsPort : ℤ → Type 0
IsPort (pos p) = (0 < p) × (p ≤ 65535)
IsPort (negsuc p) = ⊥

-- The configuration `next` has values that its users know, and those of `c` wherever they are known.
pub record IsNormal (c next : Config) : Type 0 where
  pub listens :
      next.listen
      ≡ (if is_empty c.listen then codes "0.0.0.0:4100" ∷ codes "[::]:4100" ∷ [] else c.listen)
  pub mode :
      (next.network_mode ≡ codes "auto")
      ⊎ (next.network_mode ≡ codes "public")
      ⊎ (next.network_mode ≡ codes "private")
  pub known_mode :
      (to_lower (trim_space c.network_mode) ≡ codes "public")
        ⊎ (to_lower (trim_space c.network_mode) ≡ codes "private")
      → next.network_mode ≡ to_lower (trim_space c.network_mode)
  pub channel : (next.update_channel ≡ codes "stable") ⊎ (next.update_channel ≡ codes "develop")
  pub known_channel :
      (next.update_channel ≡ codes "develop")
      ↔ (to_lower (trim_space c.update_channel) ≡ codes "develop")
  pub feed : trim_space next.update_feed_url ≢ []
  pub known_feed : trim_space c.update_feed_url ≢ [] → next.update_feed_url ≡ c.update_feed_url
  pub cluster : next.cluster_id ≢ []
  pub known_cluster : trim_space c.cluster_id ≢ [] → next.cluster_id ≡ trim_space c.cluster_id
  pub tls_mode :
      (next.auto_tls.mode ≡ codes "on")
      ⊎ (next.auto_tls.mode ≡ codes "off")
      ⊎ (next.auto_tls.mode ≡ codes "auto")
  pub known_tls_mode :
      (to_lower (trim_space c.auto_tls.mode) ≡ codes "on")
        ⊎ (to_lower (trim_space c.auto_tls.mode) ≡ codes "off")
        ⊎ (to_lower (trim_space c.auto_tls.mode) ≡ codes "auto")
      → next.auto_tls.mode ≡ to_lower (trim_space c.auto_tls.mode)
  pub cache_dir : next.auto_tls.cache_dir ≢ []
  pub port : IsPort next.auto_tls.port
  pub known_port : IsPort c.auto_tls.port → next.auto_tls.port ≡ c.auto_tls.port

pub normal_network_mode-cases :
    (t : Text)
    → (normal_network_mode t ≡ codes "auto")
      ⊎ (normal_network_mode t ≡ codes "public")
      ⊎ (normal_network_mode t ≡ codes "private")
unfolding normal_network_mode
normal_network_mode-cases t = ground (
  arith,
  same_iff (to_lower (trim_space t)) (codes "public"),
  same_iff (to_lower (trim_space t)) (codes "private"),
)

pub normal_channel-cases :
    (t : Text) → (normal_channel t ≡ codes "stable") ⊎ (normal_channel t ≡ codes "develop")
unfolding normal_channel
normal_channel-cases t = ground arith

pub normal_auto_tls_mode-cases :
    (t : Text) (enabled : Bool)
    → (normal_auto_tls_mode t enabled ≡ codes "on")
      ⊎ (normal_auto_tls_mode t enabled ≡ codes "off")
      ⊎ (normal_auto_tls_mode t enabled ≡ codes "auto")
unfolding normal_auto_tls_mode
normal_auto_tls_mode-cases t enabled =
    let mode = to_lower (trim_space t) in
    ground
      (arith, same_iff mode (codes "on"), same_iff mode (codes "off"), same_iff mode (codes "auto"))

listen_values-ne-nil : (l : List Text) → listen_values l ≢ []
listen_values-ne-nil l = ground arith

pub trim_default_feed : trim_space default_update_feed_url ≡ default_update_feed_url
unfolding trim_space trim_left trim_right is_space
trim_default_feed = refl
