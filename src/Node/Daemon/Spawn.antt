-- ===== src/Node/Daemon/Spawn.antt =====
-- `generate_config` of server/crates/sn-node/src/config.rs and `spawn_sidecar` of daemon.rs: the node key, the
-- generated config and the start of the sidecar, on what each call of the operating system gives. The key
-- is of ASCII (parse_key), so its bytes are its characters.
pub mod Started
pub mod Identity
use Prim.Native.String.{String}
use spider_net.Prelude.{ℕ, Bool, List, [], ◌∷◌, Option, none, some, if◌then◌else◌, Result, ok, err}
use spider_net.Prelude.Text.{Text, codes, trim}
use spider_net.Prelude.Text.Utf8.{from_utf8}
use spider_net.Node.Types
use spider_net.Node.Types.{NodeError, io, yggdrasil_binary, unexpected_config_shape, daemon_config}
use spider_net.Node.Json.{Json, get_text}
use spider_net.Node.Settings.{parse_key, NodeSettings, apply_to_base_config}
use spider_net.Node.Settings.Written.{File, System, write_config, write_private_key, left}
use spider_net.Node.Daemon.{Sidecar, spawned}

-- What `yggdrasil -genconf -json` gives.
pub record Output : Type 0 where
  pub success : Bool
  pub stdout : List ℕ
  pub stderr : Text

pub record Files : Type 0 where
  pub key : Option File
  pub conf : Option File

-- The answers of the system to one start.
pub record Boot (I : Type 0) : Type 0 where
  pub dir_made : Option I
  pub generated : Result I Output
  pub key_read : Option I
  pub key_system : System I
  pub conf_system : System I
  pub started : Option I

-- `read_to_string`; `not_utf8` is its error on other bytes.
unfoldable pub read_to_string : {I : Type 0} → I → Option I → File → Result I Text
read_to_string not_utf8 (some e) file = err e
read_to_string not_utf8 none file = elim (from_utf8 file.bytes) [
  | none ↦ err not_utf8
  | some text ↦ ok text
]

-- `?` on an error of the system.
unfoldable pub io_error : {I J A : Type 0} → Result I A → Result (NodeError I J) A
io_error (err e) = err (io e)
io_error (ok a) = ok a

module _ {I J V O : Type 0} (library : Json V O) (from_slice : List ℕ → Result J V)
    (pretty : O → Result J (List ℕ)) where
  unfoldable pub patched : NodeSettings → V → Result (NodeError I J) (List ℕ)
  patched settings base = elim (apply_to_base_config library settings base) [
    | none ↦ err unexpected_config_shape
    | some o ↦ elim (pretty o) [ err e ↦ err (Types.NodeError.json e) | ok text ↦ ok text ]
  ]

  -- `generate_config`.
  unfoldable pub generate_config : NodeSettings → Result I Output → Result (NodeError I J) (List ℕ)
  generate_config settings (err e) = err (io e)
  generate_config settings (ok output) =
      if output.success
      then elim (from_slice output.stdout) [
        | err e ↦ err (Types.NodeError.json e)
        | ok base ↦ patched settings base
      ]
      else err (yggdrasil_binary (trim output.stderr))

  module _ (lower_wide : ℕ → Text) (not_utf8 : I) where
    -- The branch of `spawn_sidecar` for a key file that exists.
    unfoldable pub existing_key : Boot I → File → Result (NodeError I J) Unit
    existing_key boot file = elim (read_to_string not_utf8 boot.key_read file) [
      | err e ↦ err (io e)
      | ok existing ↦ elim (parse_key lower_wide (trim existing)) [
        | err input ↦ err (daemon_config Types.ConfigFault.bad_key_file)
        | ok key ↦ ok tt
      ]
    ]

    -- The branch for a first start: the key of the generated config is stored.
    unfoldable pub new_key : Boot I → V → Option File × Result (NodeError I J) Unit
    new_key boot base = elim (get_text library base (codes "PrivateKey")) [
      | none ↦ (none, err (daemon_config Types.ConfigFault.no_private_key))
      | some generated ↦ elim (parse_key lower_wide generated) [
        | err input ↦ (none, err (daemon_config Types.ConfigFault.bad_generated_key))
        | ok key ↦
            let (states, result) = write_private_key boot.key_system none key in
            (left none states, io_error result)
      ]
    ]

    unfoldable pub node_key : Boot I → Option File → V → Option File × Result (NodeError I J) Unit
    node_key boot none base = new_key boot base
    node_key boot (some file) base = (some file, existing_key boot file)

    -- The end of `spawn_sidecar`: the config is written and the process started.
    unfoldable pub start : Boot I → Files → List ℕ → Files × Result (NodeError I J) Sidecar
    start boot files text =
        let (states, result) = write_config boot.conf_system files.conf text in
        let written : Files = record files { conf = left files.conf states } in
        elim result [
          | err e ↦ (written, err (io e))
          | ok done ↦ elim boot.started [
            | some e ↦ (written, err (io e))
            | none ↦ (written, ok spawned)
          ]
        ]

    unfoldable pub keyed : Boot I → Files → List ℕ → V → Files × Result (NodeError I J) Sidecar
    keyed boot files text base =
        let (key, checked) = node_key boot files.key base in
        elim checked [
          | err e ↦ (record files { key = key }, err e)
          | ok done ↦ start boot (record files { key = key }) text
        ]

    unfoldable pub spawn_sidecar :
        Boot I → NodeSettings → Files → Files × Result (NodeError I J) Sidecar
    spawn_sidecar boot settings files = elim boot.dir_made [
      | some e ↦ (files, err (io e))
      | none ↦ elim (generate_config settings boot.generated) [
        | err e ↦ (files, err e)
        | ok text ↦ elim (from_slice text) [
          | err e ↦ (files, err (Types.NodeError.json e))
          | ok base ↦ keyed boot files text base
        ]
      ]
    ]
