-- ===== src/Node/Admin.antt =====
-- The responses of the admin socket: `parse_response`, `SelfInfo::from_response` and
-- `peers_from_response` of server/crates/sn-node/src/yggdrasil.rs. The JSON library and the parser of
-- `Ipv6Addr`, to addresses of type `A`, are parameters.
pub mod Responses
pub mod Client
use Prim.Native.String.{String}
use spider_net.Prelude.{
  ℕ, Bool, List, [], ◌∷◌, Option, none, some, if◌then◌else◌, Result, ok, err, ◌>>=◌,
}
use spider_net.Prelude.Text.{Text, codes, text_eq}
use spider_net.Node.Json.{Json, get_value, get_text}
use spider_net.Node.Types.{AdminGap, no_status, no_data, not_object, no_record, no_key, bad_address}

-- The errors that a response leads to.
pub data AdminFault : Type 0 where
  admin_protocol : AdminGap → AdminFault
  admin_failed : Text → AdminFault

pub record SelfInfo (A V : Type 0) : Type 0 where
  pub address : A
  pub key : Text
  pub subnet : Option Text
  pub coords : Option V
  pub build_name : Option Text
  pub build_version : Option Text

pub record PeerInfo (A V : Type 0) : Type 0 where
  pub address : A
  pub key : Option Text
  pub remote : Option Text
  pub coords : Option V

-- `unwrap_or` and `ok_or_else`.
abbrev pub text_or : Option Text → Text → Text
text_or none default = default
text_or (some s) default = s

abbrev pub ok_or : {A : Type 0} → Option A → AdminGap → Result AdminFault A
ok_or none gap = err (admin_protocol gap)
ok_or (some a) gap = ok a

module _ {V O : Type 0} (json : Json V O) where
  -- `AdminClient::parse_response`, from the envelope on.
  unfoldable pub parse_response : V → Result AdminFault V
  parse_response envelope = do
    status ← ok_or (get_text json envelope (codes "status")) no_status
    if text_eq status (codes "success")
        then ok_or (get_value json envelope (codes "response")) no_data
        else err (
            admin_failed (text_or (get_text json envelope (codes "error")) (codes "unknown error")))

  module _ {A : Type 0} (parse_ipv6 : Text → Option A) where
    unfoldable pub self_of : A → V → Result AdminFault (SelfInfo A V)
    self_of address value = do
      key ← ok_or (get_text json value (codes "key")) no_key
      ok (record {
        address = address;
        key = key;
        subnet = get_text json value (codes "subnet");
        coords = get_value json value (codes "coords");
        build_name = get_text json value (codes "build_name");
        build_version = get_text json value (codes "build_version");
      })

    -- The first record of the object.
    unfoldable pub self_of_fields : List (Text × V) → Result AdminFault (SelfInfo A V)
    self_of_fields [] = err (admin_protocol no_record)
    self_of_fields ((name, value) ∷ more) = do
      address ← ok_or (parse_ipv6 name) (bad_address name)
      self_of address value

    -- `SelfInfo::from_response`.
    unfoldable pub self_from_response : V → Result AdminFault (SelfInfo A V)
    self_from_response value = do
      o ← ok_or (json.as_object value) not_object
      self_of_fields (json.fields o)

    unfoldable pub peer_of : A → V → PeerInfo A V
    peer_of address value = record {
      address = address;
      key = get_text json value (codes "key");
      remote = get_text json value (codes "remote");
      coords = get_value json value (codes "coords");
    }

    unfoldable pub peers_of : List (Text × V) → Result AdminFault (List (PeerInfo A V))
    peers_of [] = ok []
    peers_of ((name, value) ∷ more) = do
      address ← ok_or (parse_ipv6 name) (bad_address name)
      rest ← peers_of more
      ok (peer_of address value ∷ rest)

    unfoldable pub peers_from_response : V → Result AdminFault (List (PeerInfo A V))
    peers_from_response value = do
      o ← ok_or (json.as_object value) not_object
      peers_of (json.fields o)
