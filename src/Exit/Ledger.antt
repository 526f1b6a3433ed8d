-- ===== src/Exit/Ledger.antt =====
-- `QuotaPolicy` of server/crates/sn-exit/src/config.rs and `QuotaLedger` of proxy.rs. Sources are
-- numbered, in place of their addresses; an `Instant` and a `Duration` are nanoseconds.
pub mod Window
pub mod Waiting
use spider_net.Prelude.{
  ℕ, ◌+◌, ◌-◌, ◌/◌, ◌^◌, max, Bool, List, [], ◌∷◌, Option, none, some, if◌then◌else◌, ◌==◌, leb,
  Result, ok, err, saturating_add64,
}
use spider_net.Prelude.TreeMap.{lookup, insert}

pub record QuotaPolicy : Type 0 where
  pub max_bytes : ℕ
  pub window : ℕ

-- The messages of `ExitError::InvalidQuota`.
pub data QuotaFault : Type 0 where
  no_bytes : QuotaFault
  no_window : QuotaFault

-- `QuotaPolicy::try_new`.
unfoldable pub try_new_quota : ℕ → ℕ → Result QuotaFault QuotaPolicy
try_new_quota max_bytes window =
    if max_bytes == 0
    then err no_bytes
    else if window == 0
    then err no_window
    else ok (record { max_bytes = max_bytes; window = window })

pub record ClientWindow : Type 0 where
  pub window_started : ℕ
  pub used_bytes : ℕ

pub data AdmitDecision : Type 0 where
  allowed : AdmitDecision
  quota_exhausted : ℕ → AdmitDecision

-- `or_insert_with`.
unfoldable pub or_fresh : Option ClientWindow → ℕ → ClientWindow
or_fresh none now = record { window_started = now; used_bytes = 0 }
or_fresh (some w) now = w

-- `roll_window` on the entry of one source.
unfoldable pub roll_window : Option ClientWindow → QuotaPolicy → ℕ → ClientWindow
roll_window entry policy now =
    let w = or_fresh entry now in
    if leb policy.window (now - w.window_started)
    then record { window_started = now; used_bytes = 0 }
    else w

abbrev pub second : ℕ
second = 10 ^ 9

-- The decision on a window; the clock is read once more for the time to wait.
unfoldable pub decide : QuotaPolicy → ClientWindow → ℕ → AdmitDecision
decide policy w later =
    if leb policy.max_bytes w.used_bytes
    then quota_exhausted (max ((policy.window - (later - w.window_started)) / second) 1)
    else allowed

-- `QuotaLedger::admit` on the map of the clients.
unfoldable pub admit :
    List (ℕ × ClientWindow)
    → ℕ
    → Option QuotaPolicy
    → ℕ
    → ℕ
    → AdmitDecision × List (ℕ × ClientWindow)
admit clients source none now later = (allowed, clients)
admit clients source (some policy) now later =
    let w = roll_window (lookup source clients) policy now in
    (decide policy w later, insert source w clients)

-- `QuotaLedger::record`.
unfoldable pub record_traffic :
    List (ℕ × ClientWindow) → ℕ → ℕ → Option QuotaPolicy → ℕ → List (ℕ × ClientWindow)
record_traffic clients source bytes none now = clients
record_traffic clients source bytes (some policy) now =
    let w = roll_window (lookup source clients) policy now in
    insert source (record w { used_bytes = saturating_add64 w.used_bytes bytes }) clients

-- `QuotaLedger::used_bytes`.
unfoldable pub used_bytes_of : List (ℕ × ClientWindow) → ℕ → ℕ
used_bytes_of clients source = elim (lookup source clients) [ none ↦ 0 | some w ↦ w.used_bytes ]

-- One use of the ledger by a connection of some source: its start or its end.
pub data Use : Type 0 where
  started : ℕ → ℕ → ℕ → Use
  ended : ℕ → ℕ → ℕ → Use

unfoldable pub apply : QuotaPolicy → Use → List (ℕ × ClientWindow) → List (ℕ × ClientWindow)
apply policy (started source now later) clients = (admit clients source (some policy) now later).1
apply policy (ended source now bytes) clients =
    record_traffic clients source bytes (some policy) now

-- The uses of all connections in the order in which they lock the map.
unfoldable pub run : QuotaPolicy → List Use → List (ℕ × ClientWindow) → List (ℕ × ClientWindow)
run policy [] clients = clients
run policy (use_i ∷ uses) clients = run policy uses (apply policy use_i clients)
