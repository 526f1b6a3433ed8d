-- ===== src/Node/Admin/Responses.antt =====
-- Which responses of the admin socket are accepted.
use spider_net.Prelude.{
  ◌≡◌, ◌↔◌, refl, sym, ap, subst, ◌∙◌, List, [], ◌∷◌, Option, none, some, Option-cases, Bool-cases,
  inl, inr, ok, ok-inj, >>=-eq-ok, arith,
}
use spider_net.Prelude.Text.{Text, codes, text_eq}
use spider_net.Prelude.Text.Splits.{text_eq_iff}
use spider_net.Node.Json.{Json, get_value, get_text}
use spider_net.Node.Types.{no_data}
use spider_net.Node.Admin.{PeerInfo, ok_or, parse_response, peer_of, peers_of, peers_from_response}

-- An option is given by what it may be equal to.
same_finds :
    {B : Type 0} (a b : Option B) (P : B → Type 0)
    → ((x : B) → (a ≡ some x) ↔ P x)
    → ((x : B) → (b ≡ some x) ↔ P x)
    → a ≡ b
same_finds none none P f g = refl
same_finds none (some y) P f g = (f y).1 ((g y).0 refl)
same_finds (some x) b P f g = sym ((g x).1 ((f x).0 refl))

module _ {V O : Type 0} (json : Json V O) where
  -- A response is accepted if and only if its status is `success` and it has a response section, which
  -- is then the result.
  pub parse_response-ok_iff :
      (envelope value : V)
      → (parse_response json envelope ≡ ok value) ↔ (
          (get_text json envelope (codes "status") ≡ some (codes "success"))
          × (get_value json envelope (codes "response") ≡ some value))
  unfolding parse_response text_eq
  parse_response-ok_iff envelope value = (forth, back)
    where
      found : (r : Option V) → ok_or r no_data ≡ ok value → r ≡ some value
      found none h = absurd (ground (arith, h))
      found (some v) h = ap some (ok-inj h)

      forth :
          parse_response json envelope ≡ ok value
          → (get_text json envelope (codes "status") ≡ some (codes "success"))
            × (get_value json envelope (codes "response") ≡ some value)
      forth h = elim (Option-cases (get_text json envelope (codes "status"))) [
        | inl e ↦ absurd (ground (arith, rw e at h))
        | inr (status, e) ↦ elim (Bool-cases (text_eq status (codes "success"))) [
          | inl good ↦ (
            e ∙ ap some ((text_eq_iff status (codes "success")).0 good),
            found (get_value json envelope (codes "response")) (rw (e, good) at h),
          )
          | inr bad ↦ absurd (ground (arith, rw (e, bad) at h))
        ]
      ]

      back :
          (get_text json envelope (codes "status") ≡ some (codes "success"))
            × (get_value json envelope (codes "response") ≡ some value)
          → parse_response json envelope ≡ ok value
      back (s, r) = rw (s, r) refl

  -- A value with a field, and one with a field that is a text.
  abbrev pub HasValue : V → Text → V → Type 0
  HasValue value name v = (o : O) × (json.as_object value ≡ some o) × (json.get o name ≡ some v)

  abbrev pub HasText : V → Text → Text → Type 0
  HasText value name s = (field : V) × HasValue value name field × (json.as_str field ≡ some s)

  get_value-found_iff :
      (value : V) (name : Text) (v : V)
      → (get_value json value name ≡ some v) ↔ HasValue value name v
  unfolding get_value
  get_value-found_iff value name v = (forth, λ h. rw (h.1, get_value) h.2)
    where
      forth : get_value json value name ≡ some v → HasValue value name v
      forth h = elim (Option-cases (json.as_object value)) [
        | inl e ↦ absurd (ground (arith, rw (e, get_value) at h))
        | inr (o, e) ↦ (o, e, rw (e, get_value) at h)
      ]

  get_text-found_iff :
      (value : V) (name s : Text) → (get_text json value name ≡ some s) ↔ HasText value name s
  unfolding get_text
  get_text-found_iff value name s = (forth, back)
    where
      forth : get_text json value name ≡ some s → HasText value name s
      forth h = elim (Option-cases (get_value json value name)) [
        | inl e ↦ absurd (ground (arith, rw (e, get_text) at h))
        | inr (field, e) ↦
            (field, (get_value-found_iff value name field).0 e, rw (e, get_text) at h)
      ]

      back : HasText value name s → get_text json value name ≡ some s
      back (field, found, is_text) =
          rw ((get_value-found_iff value name field).1 found, get_text) is_text

  module _ {A : Type 0} (parse_ipv6 : Text → Option A) where
    -- A peer tells what a record of the response says: its name is the address, `key` and `remote` are the
    -- texts of these fields, and `coords` is the value of this field; what the record does not say is left out.
    pub record Tells (name : Text) (value : V) (p : PeerInfo A V) : Type 0 where
      pub address : parse_ipv6 name ≡ some p.address
      pub key : (s : Text) → (p.key ≡ some s) ↔ HasText value (codes "key") s
      pub remote : (s : Text) → (p.remote ≡ some s) ↔ HasText value (codes "remote") s
      pub coords : (v : V) → (p.coords ≡ some v) ↔ HasValue value (codes "coords") v

    -- The peers tell the records, one by one in their order.
    abbrev pub MadeOf : List (Text × V) → List (PeerInfo A V) → Type 0
    MadeOf [] [] = Unit {0}
    MadeOf [] (p ∷ peers) = ⊥
    MadeOf (f ∷ fields) [] = ⊥
    MadeOf ((name, value) ∷ fields) (p ∷ peers) = Tells name value p × MadeOf fields peers

    peer_of-Tells :
        (name : Text) (value : V) (address : A)
        → parse_ipv6 name ≡ some address
        → Tells name value (peer_of json parse_ipv6 address value)
    unfolding peer_of
    peer_of-Tells name value address e = record {
      address = e;
      key = get_text-found_iff value (codes "key");
      remote = get_text-found_iff value (codes "remote");
      coords = get_value-found_iff value (codes "coords");
    }

    peer_of_unique :
        (name : Text) (value : V) (p : PeerInfo A V)
        → Tells name value p
        → peer_of json parse_ipv6 p.address value ≡ p
    unfolding peer_of
    peer_of_unique name value p t =
        let key =
          same_finds (get_text json value (codes "key")) p.key _
            (get_text-found_iff value (codes "key")) t.key in
        let remote =
          same_finds (get_text json value (codes "remote")) p.remote _
            (get_text-found_iff value (codes "remote")) t.remote in
        let coords =
          same_finds (get_value json value (codes "coords")) p.coords _
            (get_value-found_iff value (codes "coords")) t.coords in
        λ i. record { address = p.address; key = key i; remote = remote i; coords = coords i }

    peers_of-MadeOf :
        (fields : List (Text × V)) (peers : List (PeerInfo A V))
        → peers_of json parse_ipv6 fields ≡ ok peers
        → MadeOf fields peers
    unfolding peers_of
    peers_of-MadeOf [] peers h = subst (MadeOf []) (ok-inj h) tt
    peers_of-MadeOf ((name, value) ∷ fields) peers h = elim (Option-cases (parse_ipv6 name)) [
      | inl e ↦ absurd (ground (arith, rw e at h))
      | inr (address, e) ↦
          let (rest, f, g) = >>=-eq-ok (peers_of json parse_ipv6 fields) _ (rw e at h) in
          subst (MadeOf ((name, value) ∷ fields)) (ok-inj g)
            (peer_of-Tells name value address e, peers_of-MadeOf fields rest f)
    ]

    peers_of-made :
        (fields : List (Text × V)) (peers : List (PeerInfo A V))
        → MadeOf fields peers
        → peers_of json parse_ipv6 fields ≡ ok peers
    unfolding peers_of
    peers_of-made [] [] m = refl
    peers_of-made [] (p ∷ peers) m = absurd m
    peers_of-made (f ∷ fields) [] m = absurd m
    peers_of-made ((name, value) ∷ fields) (p ∷ peers) (t, m) =
        rw (t.address, peers_of-made fields peers m, peer_of_unique name value p t, peers_of) refl

    -- The response section gives these peers if and only if it is an object and they tell its records one by
    -- one in their order: every name is an IPv6 address, which is the peer's, `key` and `remote` are the texts
    -- of the fields of these names and `coords` the value of its field, each left out where the record has no
    -- such field, and no record is left out or added.
    pub peers_from_response-ok_iff :
        (value : V) (peers : List (PeerInfo A V))
        → (peers_from_response json parse_ipv6 value ≡ ok peers)
          ↔ ((o : O) × (json.as_object value ≡ some o) × MadeOf (json.fields o) peers)
    unfolding peers_from_response
    peers_from_response-ok_iff value peers = (forth, back)
      where
        forth :
            peers_from_response json parse_ipv6 value ≡ ok peers
            → (o : O) × (json.as_object value ≡ some o) × MadeOf (json.fields o) peers
        forth h = elim (Option-cases (json.as_object value)) [
          | inl e ↦ absurd (ground (arith, rw e at h))
          | inr (o, e) ↦ (o, e, peers_of-MadeOf (json.fields o) peers (rw e at h))
        ]

        back :
            (o : O) × (json.as_object value ≡ some o) × MadeOf (json.fields o) peers
            → peers_from_response json parse_ipv6 value ≡ ok peers
        back (o, e, m) = rw (e, peers_from_response) (peers_of-made (json.fields o) peers m)
