-- ===== src/Node/Settings/Written.antt =====
-- `write_config` of server/crates/sn-node/src/config.rs, and `write_private_key` of daemon.rs, whose body is the
-- same, on Unix. The model keeps every state of the file that another process can meet: after the file is
-- created, after the bytes are written and after its mode is set. What the system answers to each call is a
-- parameter.
use spider_net.Prelude.{
  ℕ, ◌≡◌, refl, ap, ◌∙◌, inl, inr, List, [], ◌∷◌, All, Option, none, some, Result, ok, err, ◌∈◌,
  arith,
}

-- A file: its bytes and its permission bits.
pub record File : Type 0 where
  pub bytes : List ℕ
  pub mode : ℕ

-- The answers to `File::create`, `write_all` (with the bytes that are in the file if it fails), `flush` and
-- `set_permissions`.
pub record System (E : Type 0) : Type 0 where
  -- The mode of a file that `File::create` makes, 0o666 less the process's mask.
  pub default_mode : ℕ
  pub created : Option E
  pub written : Option (List ℕ × E)
  pub flushed : Option E
  pub restricted : Option E

-- 0o600.
abbrev pub owner_only : ℕ
owner_only = 384

-- `File::create`: an existing file is emptied and keeps its mode.
unfoldable pub create : ℕ → Option File → File
create default_mode none = record { bytes = []; mode = default_mode }
create default_mode (some file) = record { bytes = []; mode = file.mode }

-- The states that the file goes through, the last one first, and the result.
unfoldable pub write_config :
    {E : Type 0} → System E → Option File → List ℕ → List File × Result E Unit
write_config system before json = elim system.created [
  | some e ↦ ([], err e)
  | none ↦
      let file = create system.default_mode before in
      elim system.written [
        | some (part, e) ↦ (record { bytes = part; mode = file.mode } ∷ file ∷ [], err e)
        | none ↦
            let full : File = record { bytes = json; mode = file.mode } in
            elim system.flushed [
              | some e ↦ (full ∷ file ∷ [], err e)
              | none ↦ elim system.restricted [
                | some e ↦ (full ∷ file ∷ [], err e)
                | none ↦ (record { bytes = json; mode = owner_only } ∷ full ∷ file ∷ [], ok tt)
              ]
            ]
      ]
]

-- `write_private_key`.
unfoldable pub write_private_key :
    {E : Type 0} → System E → Option File → List ℕ → List File × Result E Unit
write_private_key system before key = write_config system before key

abbrev full : List ℕ → ℕ → File
full key mode = record { bytes = key; mode = mode }

some-inj : {A : Type 0} {x y : A} → ◌≡◌ {A = Option A} (some x) (some y) → x ≡ y
some-inj h = cc

-- The file as it is left.
abbrev pub left : Option File → List File → Option File
left before [] = before
left before (file ∷ earlier) = some file

-- The states of a write of `key` in the light of its result.
abbrev pub Modes :
    {E : Type 0} → System E → Option File → List ℕ → List File × Result E Unit → Type 0
Modes {E} system before key (states, result) =
    (result ≡ ok tt → left before states ≡ some (record { bytes = key; mode = owner_only }))
    × ((file : File)
        → before ≡ some file
        → file.mode ≡ owner_only
        → All (λ state. state.mode ≡ owner_only) states)
    × (before ≡ none
        → system.created ≡ none
        → system.written ≡ none
        → (record { bytes = key; mode = system.default_mode } ∈ states)
          × ((e : E)
              → result ≡ err e
              → left before states ≡ some (record { bytes = key; mode = system.default_mode })))

create_mode :
    (d : ℕ) (before : Option File) (file : File)
    → before ≡ some file
    → (create d before).mode ≡ file.mode
unfolding create
create_mode d none file h = absurd (ground (arith, h))
create_mode d (some x) file h = ap File.mode (some-inj h)

create_default : (d : ℕ) (before : Option File) → before ≡ none → (create d before).mode ≡ d
unfolding create
create_default d none h = refl
create_default d (some x) h = absurd (ground (arith, h))

modes :
    {E : Type 0}
    → (d : ℕ) (before : Option File) (key : List ℕ) (created : Option E)
      (written : Option (List ℕ × E))
    → (flushed restricted : Option E)
    → let system : System E = record {
      default_mode = d;
      created = created;
      written = written;
      flushed = flushed;
      restricted = restricted;
    } in
      Modes system before key (write_config system before key)
unfolding write_config
modes d before key (some e) w f r = (λ h. cc, λ file h m. tt, λ n c. absurd (ground (arith, c)))
modes d before key none (some (part, e)) f r = (
  λ h. cc,
  λ file h m. (create_mode d before file h ∙ m, (create_mode d before file h ∙ m, tt)),
  λ n c w. absurd (ground (arith, w)),
)
modes d before key none none (some e) r = (
  λ h. cc,
  λ file h m. (create_mode d before file h ∙ m, (create_mode d before file h ∙ m, tt)),
  λ n c w. (
    inl (ap (full key) (create_default d before n)),
    λ x h. ap (λ m. some (full key m)) (create_default d before n),
  ),
)
modes d before key none none none (some e) = (
  λ h. cc,
  λ file h m. (create_mode d before file h ∙ m, (create_mode d before file h ∙ m, tt)),
  λ n c w. (
    inl (ap (full key) (create_default d before n)),
    λ x h. ap (λ m. some (full key m)) (create_default d before n),
  ),
)
modes d before key none none none none = (
  λ h. refl,
  λ file h m. (refl, (create_mode d before file h ∙ m, (create_mode d before file h ∙ m, tt))),
  λ n c w. (inr (inl (ap (full key) (create_default d before n))), λ x h. cc),
)

-- A write that succeeds leaves the bytes with mode 600. Over a file that has that mode, whatever fails, it has
-- it in every state. And a new file is written with the default mode: it holds the bytes with it unless
-- creating or writing it fails, and is left with them when only the flush or the change of mode fails.
pub write_private_key-Modes :
    {E : Type 0}
    → (system : System E) (before : Option File) (key : List ℕ)
    → Modes system before key (write_private_key system before key)
unfolding write_private_key
write_private_key-Modes system before key =
    modes system.default_mode before key system.created system.written system.flushed
      system.restricted
