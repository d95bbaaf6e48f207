-- ===== src/Env.antt =====
-- What the program takes from outside: the keys of libp2p, and the layouts of package time.
use p2pos.Common.{false, [], ◌≢◌, ◌≡◌, Bool, true, Option, some}
use p2pos.Text.{trim_space, has_char, Text}
use p2pos.Time.{IsPrintable, Time}
use p2pos.Base64.{Bytes}
use p2pos.Base64.RoundTrip.{IsBytes}

-- The key functions of libp2p's crypto and peer packages, and the two layouts of time.Time. A
-- missing result is an error. A signed payload is a text here: a text and its bytes determine
-- each other.
pub record Env : Type 1 where
  pub PubKey : Type 0
  pub PrivKey : Type 0
  pub PeerKey : Type 0
  -- crypto.UnmarshalPublicKey and crypto.UnmarshalPrivateKey
  pub unmarshal_public : Bytes → Option PubKey
  pub unmarshal_private : Bytes → Option PrivKey
  -- crypto.MarshalPrivateKey
  pub marshal_private : PrivKey → Option Bytes
  -- crypto.MarshalPublicKey
  pub marshal_public : PubKey → Option Bytes
  -- peer.IDFromPrivateKey(priv), as a string
  pub peer_of : PrivKey → Option Text
  -- priv.GetPublic()
  pub public_of : PrivKey → PubKey
  -- priv.Sign(payload), pub.Verify(payload, sig)
  pub sign : PrivKey → Text → Option Bytes
  pub verify : PubKey → Text → Bytes → Option Bool
  -- peer.Decode, and id.ExtractPublicKey
  pub decode_peer : Text → Option PeerKey
  pub extract_public : PeerKey → Option PubKey
  -- t.Format(time.RFC3339Nano), time.Parse(time.RFC3339Nano, s) and time.Parse(time.RFC3339, s)
  pub format_nano : Time → Text
  pub parse_nano : Text → Option Time
  pub parse_rfc : Text → Option Time

-- The documented behaviour of these packages that theorems rely on.
pub record SignLaws (env : Env) : Type 0 where
  -- a signature verifies under the public key, and is bytes
  pub verify-sign :
      (k : env.PrivKey) (m : Text) (s : Bytes)
      → env.sign k m ≡ some s
      → env.verify (env.public_of k) m s ≡ some true
  pub sign-IsBytes : (k : env.PrivKey) (m : Text) (s : Bytes) → env.sign k m ≡ some s → IsBytes s
  -- no signature is empty
  pub sign-ne-nil : (k : env.PrivKey) (m : Text) (s : Bytes) → env.sign k m ≡ some s → s ≢ []

-- RFC3339Nano keeps the nanoseconds: two instants are not printed alike, and what is printed of a
-- year of four digits is read back as the same instant. It writes digits, signs and letters, and no
-- bar or space.
pub record NanoLaws (env : Env) : Type 0 where
  pub parse-format : (t : Time) → IsPrintable t → env.parse_nano (env.format_nano t) ≡ some t
  pub format-inj : (t u : Time) → env.format_nano t ≡ env.format_nano u → t ≡ u
  pub format-no_bar : (t : Time) → has_char b'|' (env.format_nano t) ≡ false
  pub trim-format : (t : Time) → trim_space (env.format_nano t) ≡ env.format_nano t
  pub format-ne-nil : (t : Time) → env.format_nano t ≢ []

-- A key that is marshalled is read back as the same key, and its form is bytes. The id of a private
-- key is not blank.
pub record KeyLaws (env : Env) : Type 0 where
  pub unmarshal-marshal :
      (k : env.PrivKey) (bs : Bytes)
      → env.marshal_private k ≡ some bs
      → env.unmarshal_private bs ≡ some k
  pub marshal-IsBytes :
      (k : env.PrivKey) (bs : Bytes) → env.marshal_private k ≡ some bs → IsBytes bs
  pub marshal-ne-nil : (k : env.PrivKey) (bs : Bytes) → env.marshal_private k ≡ some bs → bs ≢ []
  pub unmarshal-marshal_public :
      (k : env.PubKey) (bs : Bytes)
      → env.marshal_public k ≡ some bs
      → env.unmarshal_public bs ≡ some k
  pub marshal_public-IsBytes :
      (k : env.PubKey) (bs : Bytes) → env.marshal_public k ≡ some bs → IsBytes bs
  pub marshal_public-ne-nil :
      (k : env.PubKey) (bs : Bytes) → env.marshal_public k ≡ some bs → bs ≢ []
  pub peer_of-filled : (k : env.PrivKey) (id : Text) → env.peer_of k ≡ some id → trim_space id ≢ []
