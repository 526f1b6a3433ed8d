-- ===== src/Node/Settings.antt =====
-- server/crates/sn-node/src/config.rs: the validated settings and how they are put into the config that
-- Yggdrasil generated. A path is its text. How Unicode lowers a character that is not ASCII is the
-- parameter `lower_wide`; the JSON library is a parameter too.
pub mod Parsed
pub mod Uris
pub mod Patched
pub mod Written
use Prim.Native.String.{String}
use spider_net.Prelude.{
  ℕ, ◌+◌, Bool, true, false, ◌&&◌, ◌||◌, List, [], ◌∷◌, ◌++◌, map, Option, none, some,
  if◌then◌else◌, ◌==◌, leb, ltb, Result, ok, err, ◌>>=◌, sum_of,
}
use mathlib.Core.Option
use spider_net.Prelude.Text.{Text, codes, text_eq, trim, starts_with}
use spider_net.Node.Endpoint.{AdminEndpoint, config_value}
use spider_net.Node.Json.{Json}
use spider_net.Node.Types.{UriHint, binds_address, peer_schemes, listen_schemes}

-- The bytes of a character in UTF-8, and `str::len`.
unfoldable pub utf8_len : ℕ → ℕ
utf8_len c = if ltb c 128 then 1 else if ltb c 2048 then 2 else if ltb c 65536 then 3 else 4

unfoldable pub str_len : Text → ℕ
str_len s = sum_of utf8_len s

-- `NodeError::InvalidUri`, which has the input as it was given.
pub data InvalidUri : Type 0 where
  invalid_uri : Text → UriHint → InvalidUri

-- `PEER_SCHEMES`.
abbrev pub schemes : List Text
schemes = codes "tcp://" ∷ codes "tls://" ∷ codes "quic://" ∷ codes "socks://" ∷ []

-- `find` of the first scheme that the text starts with.
unfoldable pub find_scheme : List Text → Text → Option Text
find_scheme [] s = none
find_scheme (scheme ∷ more) s = if starts_with s scheme then some scheme else find_scheme more s

unfoldable pub validate_scheme : Text → UriHint → Result InvalidUri Text
validate_scheme input hint = elim (find_scheme schemes (trim input)) [
  | none ↦ err (invalid_uri input hint)
  | some scheme ↦
      if ltb (str_len scheme) (str_len (trim input))
      then ok (trim input)
      else err (invalid_uri input hint)
]

-- `PeerUri::parse` and `ListenUri::parse`, which keep the text.
unfoldable pub parse_peer : Text → Result InvalidUri Text
parse_peer input = validate_scheme input peer_schemes

unfoldable pub parse_listen : Text → Result InvalidUri Text
parse_listen input =
    if starts_with (trim input) (codes "socks://")
    then err (invalid_uri input binds_address)
    else validate_scheme (trim input) listen_schemes

unfoldable pub is_ascii_hexdigit : ℕ → Bool
is_ascii_hexdigit c = (leb 48 c && leb c 57) || (leb 97 c && leb c 102) || (leb 65 c && leb c 70)

unfoldable pub all_hexdigits : Text → Bool
all_hexdigits [] = true
all_hexdigits (c ∷ s) = is_ascii_hexdigit c && all_hexdigits s

unfoldable pub lower_char : (ℕ → Text) → ℕ → Text
lower_char lower_wide c =
    if ltb c 128 then (if leb 65 c && leb c 90 then (c + 32) ∷ [] else c ∷ []) else lower_wide c

-- `to_lowercase`.
unfoldable pub to_lowercase : (ℕ → Text) → Text → Text
to_lowercase lower_wide [] = []
to_lowercase lower_wide (c ∷ s) = lower_char lower_wide c ++ to_lowercase lower_wide s

-- `PublicKeyHex::parse`, whose error has the input.
unfoldable pub parse_key : (ℕ → Text) → Text → Result Text Text
parse_key lower_wide input =
    let trimmed = to_lowercase lower_wide (trim input) in
    if str_len trimmed == 64 && all_hexdigits trimmed then ok trimmed else err input

pub data IfName : Type 0 where
  auto : IfName
  headless : IfName
  named : Text → IfName

-- `parse_ifname`, whose error has the input.
unfoldable pub parse_ifname : Text → Result Text IfName
parse_ifname input =
    let name = trim input in
    if text_eq name (codes "auto")
    then ok auto
    else if text_eq name (codes "none")
    then ok headless
    else if text_eq name []
    then err input
    else ok (named name)

pub record MulticastInterface : Type 0 where
  pub regex : Text
  pub beacon : Bool
  pub listen : Bool
  pub port : ℕ

pub data MulticastMode : Type 0 where
  platform_default : MulticastMode
  disabled : MulticastMode
  interfaces : List MulticastInterface → MulticastMode

pub record NodeSettings : Type 0 where
  pub peers : List Text
  pub listen : List Text
  pub multicast : Option MulticastMode
  pub admin_listen : Option AdminEndpoint
  pub if_name : Option IfName
  pub allowed_public_keys : List Text
  pub private_key_path : Option Text

unfoldable pub if_name_text : IfName → Text
if_name_text auto = codes "auto"
if_name_text headless = codes "none"
if_name_text (named name) = name

module _ {V O : Type 0} (json : Json V O) where
  unfoldable pub put_list : Text → List Text → O → O
  put_list name [] o = o
  put_list name (x ∷ xs) o = json.insert o name (json.of_array (map json.of_text (x ∷ xs)))

  unfoldable pub put_text : Text → Option Text → O → O
  put_text name none o = o
  put_text name (some s) o = json.insert o name (json.of_text s)

  unfoldable pub interface_value : MulticastInterface → V
  interface_value i = json.of_object (
      (codes "Beacon", json.of_bool i.beacon)
      ∷ (codes "Listen", json.of_bool i.listen)
      ∷ (codes "Port", json.of_number i.port)
      ∷ (codes "Regex", json.of_text i.regex)
      ∷ [])

  unfoldable pub put_multicast : Option MulticastMode → O → O
  put_multicast none o = o
  put_multicast (some platform_default) o = o
  put_multicast (some disabled) o = json.insert o (codes "MulticastInterfaces") (json.of_array [])
  put_multicast (some (interfaces list)) o =
      json.insert o (codes "MulticastInterfaces") (json.of_array (map interface_value list))

  -- `apply_to_base_config` on the object.
  unfoldable pub patch : NodeSettings → O → O
  patch settings base =
      let o1 = put_list (codes "Peers") settings.peers base in
      let o2 = put_list (codes "Listen") settings.listen o1 in
      let o3 = put_multicast settings.multicast o2 in
      let o4 = put_text (codes "AdminListen") (Option.map config_value settings.admin_listen) o3 in
      let o5 = put_text (codes "IfName") (Option.map if_name_text settings.if_name) o4 in
      let o6 = put_list (codes "AllowedPublicKeys") settings.allowed_public_keys o5 in
      put_text (codes "PrivateKeyPath") settings.private_key_path o6

  -- `apply_to_base_config`, or nothing (`NodeError::UnexpectedConfigShape`).
  unfoldable pub apply_to_base_config : NodeSettings → V → Option O
  apply_to_base_config settings base = Option.map (patch settings) (json.as_object base)
