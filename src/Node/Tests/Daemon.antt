-- ===== src/Node/Tests/Daemon.antt =====
-- The properties of the daemon at concrete starts and lives.
use spider_net.Prelude.{
  inr, inl, ℕ, ◌≤◌, ◌≡◌, ◌↔◌, refl, true, false, List, [], ◌∷◌, ◌++◌, Option, none, some, Result,
  ok, arith,
}
use spider_net.Prelude.Text.{
  Text, codes, text_eq, is_whitespace, trim_start, cons_trimmed, trim_end, trim,
}
use spider_net.Exit.Address.{IpAddr, v6}
use spider_net.Node.Json.{get_text, get_value}
use spider_net.Node.Admin.Client.{
  Attempt, query-ends_iff, get_self, get_peers, query, connect, finish, respond, or_fault,
}
use spider_net.Node.Admin.{
  parse_response, self_from_response, self_of_fields, self_of, peers_from_response, peers_of,
  peer_of,
}
use spider_net.Node.Settings.{
  NodeSettings, str_len, utf8_len, is_ascii_hexdigit, all_hexdigits, lower_char, to_lowercase,
  parse_key, put_list, put_text, put_multicast, patch, apply_to_base_config,
}
use spider_net.Node.Settings.Written.{File, System, create, write_config, write_private_key}
use spider_net.Node.Daemon.{
  Sidecar, spawned, exited, kill, sent, signal, wait, after, terminate_sidecar,
}
use spider_net.Node.Daemon.Overlay.{
  Round, OverlayOutcome, up, answered, wait_round, child_exit, settled, stuck, wait_for_overlay,
}
use spider_net.Node.Daemon.Overlay.Waiting.{Ends, wait_for_overlay-settled}
use spider_net.Node.Daemon.Overlay.Stuck.{Begins, first, IsHung, wait_for_overlay-stuck_iff}
use spider_net.Node.Daemon.Spawn.{
  Files, Boot, io_error, patched, generate_config, new_key, node_key, start, keyed, spawn_sidecar,
}
use spider_net.Node.Daemon.Spawn.Started.{spawn_sidecar-keeps}
use spider_net.Node.Daemon.Spawn.Identity.{IsStored, spawn_sidecar-stores}
use spider_net.Node.Daemon.Run
use spider_net.Node.Daemon.Run.{Life, ended, waits_forever, leech, run_service}
use spider_net.Node.Tests.{Value, text, object, Object, empty, field, chains, known}
use spider_net.Node.Tests.Config.{wide, config}

abbrev to_ip : Text → Option IpAddr
to_ip = known (v6 512 0 0 0 0 0 0 7) (codes "200::7")

abbrev key_text : Text
key_text = codes "0123456789abcdef0123456789abcdef0123456789abcdef0123456789abcdef"

-- What the socket says of the node.
abbrev own_record : Object
own_record = field (codes "200::7") (object (field (codes "key") (text (codes "ab")) empty)) empty

-- Whatever is read is the generated config, which has a key, and an answer of the socket as well.
abbrev from_slice : List ℕ → Result ℕ Value
from_slice bytes = ok (
    object (
      field (codes "PrivateKey") (text key_text) (
        field (codes "status") (text (codes "success"))
          (field (codes "response") (object own_record) empty))))

abbrev pretty : Object → Result ℕ (List ℕ)
pretty o = ok (123 ∷ 125 ∷ [])

abbrev join : Text → Text → Text
join dir name = dir ++ (47 ∷ name)

-- A socket that refuses the connection, and one that accepts it and stays silent.
abbrev refuses : Attempt ℕ
refuses = record { connected = some (3, some 111); answered = none }

abbrev silent : Attempt ℕ
silent = record { connected = some (3, none); answered = none }

abbrev round_of : Attempt ℕ → Round ℕ
round_of attempt = record {
  shutdown = false;
  sidecar = none;
  own = attempt;
  peers = refuses;
  pause = 0;
}

abbrev answers : Attempt ℕ
answers = record { connected = some (3, none); answered = some (5, ok (123 ∷ 125 ∷ [])) }

answering : ℕ → Round ℕ
answering n = record { shutdown = false; sidecar = none; own = answers; peers = answers; pause = 0 }

refusing : ℕ → Round ℕ
refusing n = round_of refuses

refusing-Ends : Ends chains from_slice to_ip refusing
unfolding get_self get_peers refusing
refusing-Ends n limit = (
  λ e. refused (query-ends_iff chains from_slice _ limit (some (3, some 111)) none) e,
  λ e. refused (query-ends_iff chains from_slice _ limit (some (3, some 111)) none) e,
)
  where
    refused :
        {P : Type 0}
        → P ↔ (
            (delay : ℕ) × (◌≡◌ {A = Option (ℕ × Option ℕ)}
              (some (3, some 111))
              (some (delay, none)))
            × (delay ≤ limit)
            × (◌≡◌ {A = Option (ℕ × Result ℕ (List ℕ))} none none))
        → P
        → ⊥
    refused e p = absurd (ground (arith, (e.0 p).1))

wait_for_overlay-settled_example :
    (outcome : OverlayOutcome ℕ ℕ) × (left : Option Sidecar) × (wait_for_overlay chains from_slice
        to_ip 61 config.admin_endpoint refusing 0 0
        (some spawned)
      ≡ settled outcome left)
wait_for_overlay-settled_example =
    wait_for_overlay-settled chains from_slice to_ip config.admin_endpoint refusing (some spawned)
      refusing-Ends

silently : ℕ → Round ℕ
silently n = round_of silent

wait_for_overlay-stuck_iff_example :
    (wait_for_overlay {J = ℕ} chains from_slice to_ip 61 config.admin_endpoint silently 0 0
        (some spawned)
      ≡ stuck)
    ↔ ((n : ℕ) × (t : ℕ) × Begins chains from_slice to_ip config.admin_endpoint silently
          (some spawned)
          n
          t
        × IsHung chains from_slice to_ip config.admin_endpoint silently (some spawned) n t)
wait_for_overlay-stuck_iff_example =
    wait_for_overlay-stuck_iff chains from_slice to_ip config.admin_endpoint silently (some spawned)

-- It hangs in its first round.
silently_stuck :
    wait_for_overlay {J = ℕ} chains from_slice to_ip 61 config.admin_endpoint silently 0 0
      (some spawned)
    ≡ stuck
unfolding silently
silently_stuck =
    (wait_for_overlay-stuck_iff chains from_slice to_ip config.admin_endpoint silently
        (some spawned)).1
      (0, 0, first, ((omega arith, refl, inr refl), inl (3, refl, omega arith, refl)))

abbrev sound : System ℕ
sound = record {
  default_mode = 420;
  created = none;
  written = none;
  flushed = none;
  restricted = none;
}

abbrev boot : Boot ℕ
boot = record {
  dir_made = none;
  generated = ok (record { success = true; stdout = []; stderr = [] });
  key_read = none;
  key_system = sound;
  conf_system = sound;
  started = none;
}

abbrev settings : NodeSettings
settings = record {
  peers = [];
  listen = [];
  multicast = none;
  admin_listen = none;
  if_name = none;
  allowed_public_keys = [];
  private_key_path = none;
}

abbrev old_key : File
old_key = record { bytes = 110 ∷ 111 ∷ []; mode = 384 }

spawn_sidecar-keeps_example :
    (spawn_sidecar chains from_slice pretty wide 5 boot settings
      (record { key = some old_key; conf = none })).0.key
    ≡ some old_key
spawn_sidecar-keeps_example =
    spawn_sidecar-keeps chains from_slice pretty wide 5 boot settings
      (record { key = some old_key; conf = none }) old_key refl

abbrev no_files : Files
no_files = record { key = none; conf = none }

first_start :
    (spawn_sidecar chains from_slice pretty wide 5 boot settings no_files).1
    ≡ ok (record { reaped = false; signals = [] })
unfolding spawn_sidecar generate_config patched apply_to_base_config patch put_list put_text
    put_multicast keyed node_key new_key get_text get_value text_eq parse_key to_lowercase
    lower_char trim trim_start trim_end cons_trimmed is_whitespace str_len utf8_len all_hexdigits
    is_ascii_hexdigit write_private_key write_config create io_error start spawned
first_start = refl

spawn_sidecar-stores_example :
    (file : File) × ((spawn_sidecar chains from_slice pretty wide 5 boot settings no_files).0.key
      ≡ some file)
    × IsStored {I = ℕ} chains from_slice pretty wide 5 file
spawn_sidecar-stores_example =
    spawn_sidecar-stores chains from_slice pretty wide 5 boot settings no_files
      (record { reaped = false; signals = [] }) (λ c. tt) refl first_start

-- The overlay comes up, a shutdown comes, SIGTERM fails and the sidecar exits when it is killed.
abbrev life : Life ℕ
life = record {
  boot = boot;
  rounds = answering;
  listening = none;
  sidecar = none;
  served = some true;
  shutdown = true;
  ending = record {
    term_sent = false;
    graced = none;
    kill_sent = true;
    killed = some (exited (codes "signal: 9"));
  };
}

-- The overlay is up in the first round.
overlay_up :
    wait_for_overlay {J = ℕ} chains from_slice to_ip 61 config.admin_endpoint answering 0 0
      (some spawned)
    ≡ settled (up (v6 512 0 0 0 0 0 0 7)) (some spawned)
unfolding wait_for_overlay wait_round answered child_exit answering get_self get_peers query connect
    finish respond parse_response self_from_response self_of_fields self_of peers_from_response
    peers_of peer_of or_fault get_text get_value text_eq
overlay_up = refl

-- SIGTERM fails, and the sidecar is killed.
shut_down :
    run_service {J = ℕ} life none (v6 512 0 0 0 0 0 0 7) (some spawned)
    ≡ ended (ok tt) (some (record { reaped = true; signals = kill ∷ [] }))
unfolding run_service leech child_exit Run.finish terminate_sidecar sent signal wait after spawned
shut_down = refl

-- With neither a shutdown nor an exit of the sidecar it goes on.
goes_on :
    run_service {J = ℕ}
      (record life { shutdown = false })
      none
      (v6 512 0 0 0 0 0 0 7)
      (some spawned)
    ≡ waits_forever
unfolding run_service leech child_exit
goes_on = refl
