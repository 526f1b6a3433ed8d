-- ===== src/Node/Settings/Patched.antt =====
-- What each field of a patched config holds.
use spider_net.Prelude.{
  ◌≡◌, refl, false, List, [], ◌∷◌, All, ◌⊎◌, map, Option, none, some, Option-cases, inl, inr,
  if◌then◌else◌, arith, ◌∙◌,
}
use mathlib.Core.Option
use spider_net.Prelude.Text.{Text, codes, text_eq}
use spider_net.Node.Endpoint.{config_value}
use spider_net.Node.Json.{Json}
use spider_net.Node.Settings.{
  MulticastMode, platform_default, disabled, interfaces, NodeSettings, if_name_text, put_list,
  put_text, interface_value, put_multicast, patch, apply_to_base_config,
}

module _ {V O : Type 0} (json : Json V O) where
  -- A list of texts if there are any, or else what was there.
  abbrev pub list_or : List Text → Option V → Option V
  list_or [] before = before
  list_or (x ∷ xs) before = some (json.of_array (map json.of_text (x ∷ xs)))

  abbrev pub text_or_before : Option Text → Option V → Option V
  text_or_before none before = before
  text_or_before (some s) before = some (json.of_text s)

  abbrev pub multicast_or : Option MulticastMode → Option V → Option V
  multicast_or none before = before
  multicast_or (some platform_default) before = before
  multicast_or (some disabled) before = some (json.of_array [])
  multicast_or (some (interfaces list)) before =
      some (json.of_array (map (interface_value json) list))

  get-put_list :
      (name j : Text) (xs : List Text) (o : O)
      → json.get (put_list json name xs o) j
        ≡ (if text_eq j name then list_or xs (json.get o j) else json.get o j)
  unfolding put_list
  get-put_list name j [] o = ground (arith)
  get-put_list name j (x ∷ xs) o =
      json.get-insert o name j (json.of_array (map json.of_text (x ∷ xs)))

  get-put_text :
      (name j : Text) (s : Option Text) (o : O)
      → json.get (put_text json name s o) j
        ≡ (if text_eq j name then text_or_before s (json.get o j) else json.get o j)
  unfolding put_text
  get-put_text name j none o = ground (arith)
  get-put_text name j (some s) o = json.get-insert o name j (json.of_text s)

  get-put_multicast :
      (j : Text) (m : Option MulticastMode) (o : O)
      → json.get (put_multicast json m o) j ≡ (
          if text_eq j (codes "MulticastInterfaces")
          then multicast_or m (json.get o j)
          else json.get o j)
  unfolding put_multicast
  get-put_multicast j none o = ground (arith)
  get-put_multicast j (some platform_default) o = ground (arith)
  get-put_multicast j (some disabled) o =
      json.get-insert o (codes "MulticastInterfaces") j (json.of_array [])
  get-put_multicast j (some (interfaces list)) o =
      json.get-insert o (codes "MulticastInterfaces") j
        (json.of_array (map (interface_value json) list))

  -- What the patched config holds under the name `j`.
  abbrev pub patched_or : NodeSettings → Text → Option V → Option V
  patched_or s j b =
      let b1 = if text_eq j (codes "Peers") then list_or s.peers b else b in
      let b2 = if text_eq j (codes "Listen") then list_or s.listen b1 else b1 in
      let b3 =
        if text_eq j (codes "MulticastInterfaces") then multicast_or s.multicast b2 else b2 in
      let b4 =
        if text_eq j (codes "AdminListen")
        then text_or_before (Option.map config_value s.admin_listen) b3
        else b3 in
      let b5 =
        if text_eq j (codes "IfName")
        then text_or_before (Option.map if_name_text s.if_name) b4
        else b4 in
      let b6 =
        if text_eq j (codes "AllowedPublicKeys") then list_or s.allowed_public_keys b5 else b5 in
      if text_eq j (codes "PrivateKeyPath") then text_or_before s.private_key_path b6 else b6

  get-patch :
      (s : NodeSettings) (j : Text) (o : O)
      → json.get (patch json s o) j ≡ patched_or s j (json.get o j)
  unfolding patch
  get-patch s j o =
      rw
        (
          get-put_text, get-put_list, get-put_text, get-put_text, get-put_multicast, get-put_list,
          get-put_list,
        )
        refl

-- The names that patching may write.
abbrev pub names : List Text
names =
    codes "Peers"
    ∷ codes "Listen"
    ∷ codes "MulticastInterfaces"
    ∷ codes "AdminListen"
    ∷ codes "IfName"
    ∷ codes "AllowedPublicKeys"
    ∷ codes "PrivateKeyPath"
    ∷ []

module _ {V O : Type 0} (json : Json V O) where
  -- The settings stand in the object `o`, and what they leave open is as in `b`.
  abbrev pub IsPatched : NodeSettings → O → O → Type 0
  IsPatched s b o =
      (json.get o (codes "Peers") ≡ list_or json s.peers (json.get b (codes "Peers")))
      × (json.get o (codes "Listen") ≡ list_or json s.listen (json.get b (codes "Listen")))
      × (json.get o (codes "MulticastInterfaces")
          ≡ multicast_or json s.multicast (json.get b (codes "MulticastInterfaces")))
      × (json.get o (codes "AdminListen")
          ≡ text_or_before json (Option.map config_value s.admin_listen)
              (json.get b (codes "AdminListen")))
      × (json.get o (codes "IfName")
          ≡ text_or_before json (Option.map if_name_text s.if_name) (json.get b (codes "IfName")))
      × (json.get o (codes "AllowedPublicKeys")
          ≡ list_or json s.allowed_public_keys (json.get b (codes "AllowedPublicKeys")))
      × (json.get o (codes "PrivateKeyPath")
          ≡ text_or_before json s.private_key_path (json.get b (codes "PrivateKeyPath")))
      × ((j : Text) → All (λ name. text_eq j name ≡ false) names → json.get o j ≡ json.get b j)

  unpatched :
      (j : Text) (s : NodeSettings) (b : Option V)
      → All (λ name. text_eq j name ≡ false) names
      → patched_or json s j b ≡ b
  unpatched j s b other =
      rw
        (
          other.0, other.1.0, other.1.1.0, other.1.1.1.0, other.1.1.1.1.0, other.1.1.1.1.1.0,
          other.1.1.1.1.1.1.0,
        )
        refl

  patch-IsPatched : (s : NodeSettings) (b : O) → IsPatched s b (patch json s b)
  unfolding text_eq
  patch-IsPatched s b =
      let at : (j : Text) → json.get (patch json s b) j ≡ patched_or json s j (json.get b j) =
        λ j. get-patch json s j b in
      (
        at (codes "Peers"),
        at (codes "Listen"),
        at (codes "MulticastInterfaces"),
        at (codes "AdminListen"),
        at (codes "IfName"),
        at (codes "AllowedPublicKeys"),
        at (codes "PrivateKeyPath"),
        λ j other. at j ∙ unpatched j s (json.get b j) other,
      )

  -- Patching the generated config succeeds exactly on an object, and then each of the seven fields is the
  -- setting where one is given and is as generated where none is; no other field changes.
  pub apply_to_base_config-IsPatched :
      (s : NodeSettings) (v : V)
      → (apply_to_base_config json s v ≡ none) × (json.as_object v ≡ none)
        ⊎ ((b o : O) × (json.as_object v ≡ some b)
            × (apply_to_base_config json s v ≡ some o)
            × IsPatched s b o)
  unfolding apply_to_base_config
  apply_to_base_config-IsPatched s v = elim (Option-cases (json.as_object v)) [
    | inl e ↦ inl (rw (e, apply_to_base_config) refl, e)
    | inr (b, e) ↦
        inr (b, patch json s b, e, rw (e, apply_to_base_config) refl, patch-IsPatched s b)
  ]
