-- ===== src/Node/DaemonConfig/Each.antt =====
-- What `parse_each` makes of a list of entries.
use spider_net.Prelude.{
  ◌≡◌, ◌≢◌, ◌⊎◌, inl, inr, refl, ap, sym, subst, ◌∙◌, List, [], ◌∷◌, ◌++◌, All, ◌∈◌, Option, Result,
  ok, err, ok-inj, arith,
}
use spider_net.Prelude.Text.{Text}
use spider_net.Node.Types.{ConfigFault}
use spider_net.Node.DaemonConfig.{unwrap_or, map_err, parse_all, parse_each}

module _ {E T : Type 0} (parse : Text → Result E T) where
  -- The entries are parsed into the values, one by one.
  abbrev pub ParsedAs : List Text → List T → Type 0
  ParsedAs [] [] = Unit
  ParsedAs [] (value ∷ values) = ⊥
  ParsedAs (input ∷ inputs) [] = ⊥
  ParsedAs (input ∷ inputs) (value ∷ values) = (parse input ≡ ok value) × ParsedAs inputs values

  -- All entries are parsed, or one is refused and all before it are parsed.
  abbrev pub EachOutcome : List Text → (E → ConfigFault) → Result ConfigFault (List T) → Type 0
  EachOutcome inputs fault result =
      ((values : List T) × (result ≡ ok values) × ParsedAs inputs values)
      ⊎ ((before after : List Text) × (input : Text) × (values : List T) × (e : E) × (inputs
            ≡ before ++ (input ∷ after))
          × ParsedAs before values
          × (parse input ≡ err e)
          × (result ≡ err (fault e)))

  Result-cases : (r : Result E T) → ((a : T) × (r ≡ ok a)) ⊎ ((e : E) × (r ≡ err e))
  Result-cases (ok a) = inl (a, refl)
  Result-cases (err e) = inr (e, refl)

  outcome :
      (inputs : List Text) (fault : E → ConfigFault)
      → EachOutcome inputs fault (parse_all fault parse inputs)
  unfolding parse_all map_err
  outcome [] fault = inl ([], refl, tt)
  outcome (input ∷ inputs) fault = elim (Result-cases (parse input)) [
    | inr (e, bad) ↦ inr ([], inputs, input, [], e, refl, tt, bad, rw (bad, parse_all) refl)
    | inl (value, good) ↦ elim (outcome inputs fault) [
      | inl (values, all, parsed) ↦
          inl (value ∷ values, rw (good, parse_all) (rw (all, parse_all) refl), (good, parsed))
      | inr (before, after, x, values, e, same, parsed, bad, stopped) ↦ inr (
        input ∷ before,
        after,
        x,
        value ∷ values,
        e,
        ap (λ l. input ∷ l) same,
        (good, parsed),
        bad,
        rw (good, parse_all) (rw (stopped, parse_all) refl),
      )
    ]
  ]

  -- A list of entries is parsed as a whole, value by value in its order, or the first entry that is refused
  -- decides the error.
  pub parse_each-EachOutcome :
      (inputs : Option (List Text)) (fault : E → ConfigFault)
      → EachOutcome (unwrap_or [] inputs) fault (parse_each inputs fault parse)
  unfolding parse_each
  parse_each-EachOutcome inputs fault = outcome (unwrap_or [] inputs) fault

  -- The entries of a list that was accepted.
  pub parse_each-ok :
      (inputs : Option (List Text)) (fault : E → ConfigFault) (values : List T)
      → parse_each inputs fault parse ≡ ok values
      → ParsedAs (unwrap_or [] inputs) values
  parse_each-ok inputs fault values h = elim (parse_each-EachOutcome inputs fault) [
    | inl (found, e, parsed) ↦
        let same : found ≡ values = ok-inj (sym e ∙ h) in
        subst (ParsedAs (unwrap_or [] inputs)) same parsed
    | inr (before, after, x, found, e, same, parsed, bad, stopped) ↦
        absurd (ground (arith, stopped, h))
  ]

  -- What every value has if parsing gives it.
  pub ParsedAs-All :
      (P : T → Type 0) (inputs : List Text) (values : List T)
      → ParsedAs inputs values
      → ((input : Text) (value : T) → parse input ≡ ok value → P value)
      → All P values
  ParsedAs-All P [] [] p h = tt
  ParsedAs-All P [] (value ∷ values) p h = absurd p
  ParsedAs-All P (input ∷ inputs) [] p h = absurd p
  ParsedAs-All P (input ∷ inputs) (value ∷ values) p h =
      (h input value p.0, ParsedAs-All P inputs values p.1 h)

  pub ParsedAs-value :
      (inputs : List Text) (values : List T) (value : T)
      → ParsedAs inputs values
      → value ∈ values
      → (input : Text) × (input ∈ inputs) × (parse input ≡ ok value)
  ParsedAs-value [] [] value p m = absurd m
  ParsedAs-value [] (v ∷ values) value p m = absurd p
  ParsedAs-value (input ∷ inputs) [] value p m = absurd m
  ParsedAs-value (input ∷ inputs) (v ∷ values) value p (inl same) =
      (input, inl refl, p.0 ∙ ap ok same)
  ParsedAs-value (input ∷ inputs) (v ∷ values) value p (inr m) =
      let (x, there, parsed) = ParsedAs-value inputs values value p.1 m in (x, inr there, parsed)

  pub ParsedAs-input :
      (inputs : List Text) (values : List T) (input : Text)
      → ParsedAs inputs values
      → input ∈ inputs
      → (value : T) × (value ∈ values) × (parse input ≡ ok value)
  ParsedAs-input [] [] input p m = absurd m
  ParsedAs-input [] (v ∷ values) input p m = absurd m
  ParsedAs-input (x ∷ inputs) [] input p m = absurd p
  ParsedAs-input (x ∷ inputs) (v ∷ values) input p (inl same) =
      (v, inl refl, ap parse (sym same) ∙ p.0)
  ParsedAs-input (x ∷ inputs) (v ∷ values) input p (inr m) =
      let (value, there, parsed) = ParsedAs-input inputs values input p.1 m in
      (value, inr there, parsed)

  pub ParsedAs-nil : (inputs : List Text) → ParsedAs inputs [] → inputs ≡ []
  ParsedAs-nil [] p = refl
  ParsedAs-nil (x ∷ inputs) p = absurd p

  pub ParsedAs-cons :
      (inputs : List Text) (v : T) (values : List T) → ParsedAs inputs (v ∷ values) → inputs ≢ []
  ParsedAs-cons [] v values p = absurd p
  ParsedAs-cons (x ∷ inputs) v values p = λ e. absurd (ground (arith, e))
