-- ===== src/Node/Tests/Settings.antt =====
-- The properties of the settings and the admin responses at concrete values.
use spider_net.Prelude.{ℕ, ◌≡◌, ◌↔◌, ◌⊎◌, refl, List, [], ◌∷◌, Option, none, some, ok, arith}
use spider_net.Prelude.Text.{Text, codes, text_eq}
use spider_net.Node.Json.{get_value, get_text}
use spider_net.Node.Endpoint.{tcp, parse_endpoint, config_value}
use spider_net.Node.Endpoint.Print.{parse_endpoint-config_value}
use spider_net.Node.Admin.{PeerInfo, peer_of, peers_of, peers_from_response}
use spider_net.Node.Admin.Responses.{MadeOf, peers_from_response-ok_iff}
use spider_net.Node.Settings.{NodeSettings, disabled, auto, apply_to_base_config}
use spider_net.Node.Settings.Patched.{IsPatched, apply_to_base_config-IsPatched}
use spider_net.Node.Settings.Written.{System, Modes, write_private_key, write_private_key-Modes}
use spider_net.Node.Tests.{Value, text, number, array, object, Object, empty, field, chains, known}

parse_endpoint-config_value_example :
    parse_endpoint (config_value (tcp (codes "localhost") 9001)) ≡ ok (tcp (codes "localhost") 9001)
parse_endpoint-config_value_example =
    parse_endpoint-config_value (tcp (codes "localhost") 9001)
      ((λ e. ground (arith, e)), omega arith)

abbrev to_seven : Text → Option ℕ
to_seven = known 7 (codes "200::1")

-- A response with one peer.
abbrev one_peer : Object
one_peer = field (codes "200::1") (object (field (codes "key") (text (codes "ab")) empty)) empty

abbrev peers : List (PeerInfo ℕ Value)
peers = record { address = 7; key = some (codes "ab"); remote = none; coords = none } ∷ []

one_peer_read : peers_from_response chains to_seven (object one_peer) ≡ ok peers
unfolding peers_from_response peers_of peer_of get_text get_value text_eq
one_peer_read = refl

peers_from_response-ok_iff_example :
    (peers_from_response chains to_seven (object one_peer) ≡ ok peers) ↔ (
      (o : Object) × (◌≡◌ {A = Option Object} (some one_peer) (some o))
      × MadeOf chains to_seven (chains.fields o) peers)
peers_from_response-ok_iff_example =
    peers_from_response-ok_iff chains to_seven (object one_peer) peers

abbrev settings : NodeSettings
settings = record {
  peers = codes "tls://a:1" ∷ [];
  listen = [];
  multicast = some disabled;
  admin_listen = some (tcp (codes "localhost") 9001);
  if_name = some auto;
  allowed_public_keys = [];
  private_key_path = none;
}

abbrev base : Object
base =
    field (codes "Peers") (array [])
      (field (codes "Listen") (array []) (field (codes "NodeInfo") (number 3) empty))

apply_to_base_config-IsPatched_example :
    (apply_to_base_config chains settings (object base) ≡ none)
      × (◌≡◌ {A = Option Object} (some base) none)
    ⊎ ((b o : Object) × (◌≡◌ {A = Option Object} (some base) (some b))
        × (apply_to_base_config chains settings (object base) ≡ some o)
        × IsPatched chains settings b o)
apply_to_base_config-IsPatched_example =
    apply_to_base_config-IsPatched chains settings (object base)

-- A disk that fills up at the flush, under a mask of 0o022.
abbrev full_disk : System ℕ
full_disk = record {
  default_mode = 420;
  created = none;
  written = none;
  flushed = some 28;
  restricted = none;
}

write_private_key-Modes_example :
    Modes full_disk none (48 ∷ 49 ∷ []) (write_private_key full_disk none (48 ∷ 49 ∷ []))
write_private_key-Modes_example = write_private_key-Modes full_disk none (48 ∷ 49 ∷ [])
