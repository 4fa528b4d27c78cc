-- ===== src/Capability/Matching.antt =====
-- When a request is supported: pkg/harness/capability/match.go and resolver.go.
use harness_core.Base.{
  String, ◌≡◌, ◌≢◌, ◌↔◌, ◌⊎◌, inl, inr, refl, Bool, true, false, not, ◌==◌, Option, none, some,
  List, [], ◌∷◌, ◌++◌, if◌then◌else◌, subst, Bool-cases, arith, sym, ap, some-ne-none,
}
use harness_core.Base.Int.{ℤ}
use harness_core.Tool.{Definition, Entry, Registry, resolve}
use harness_core.Capability.{
  Request, SupportRequirements, MatchResult, Outcome, found, UnsupportedReason,
  UnsupportedReasonCode, support_flag, lacks, unsupported_reasons_for_definition, entry_answer,
  of_outcome, of_reasons, match_request, resolve_request, resolution_of, failed,
  capability_disabled, fanout_unsupported, graph_unsupported, reopen_unsupported, input_unsupported,
  unsupported_reason_from_error,
}

-- What a definition advertises covers what is required.
abbrev pub IsSupported : Definition → Option SupportRequirements → Type 0
IsSupported def none = Unit
IsSupported def (some r) =
    (r.multi_target_fanout ≡ true → support_flag def.metadata "supports_multi_target_fanout" ≡ true)
    × (r.preplanned_tool_graph ≡ true
        → support_flag def.metadata "supports_preplanned_tool_graph" ≡ true)
    × (r.interactive_reopen ≡ true → support_flag def.metadata "supports_interactive_reopen" ≡ true)
    × (r.artifact_input ≡ true → support_flag def.metadata "supports_artifact_input" ≡ true)

abbrev IsNil : List UnsupportedReason → Type 0
IsNil rs = rs ≡ []

lacks-IsNil :
    (required : Bool) (key : String) (c : UnsupportedReasonCode) (message : String)
    (def : Definition)
    → IsNil (lacks required key c message def)
      ↔ (required ≡ true → support_flag def.metadata key ≡ true)
lacks-IsNil required key c message def = ground arith

append-IsNil : (xs ys : List UnsupportedReason) → IsNil (xs ++ ys) ↔ (IsNil xs × IsNil ys)
append-IsNil [] ys = ((λ h. (refl, h)), (λ h. h.1))
append-IsNil (x ∷ xs) ys = ((λ h. cc), (λ h. cc))

reasons-IsNil :
    (def : Definition) (requirements : Option SupportRequirements)
    → IsNil (unsupported_reasons_for_definition def requirements) ↔ IsSupported def requirements
unfolding unsupported_reasons_for_definition
reasons-IsNil def none = ((λ _. tt), (λ _. refl))
reasons-IsNil def (some r) =
    let fanout =
      lacks-IsNil r.multi_target_fanout "supports_multi_target_fanout" fanout_unsupported
        "capability does not advertise multi-target fan-out support" def in
    let graph =
      lacks-IsNil r.preplanned_tool_graph "supports_preplanned_tool_graph" graph_unsupported
        "capability does not advertise preplanned tool-graph support" def in
    let reopen =
      lacks-IsNil r.interactive_reopen "supports_interactive_reopen" reopen_unsupported
        "capability does not advertise interactive reopen support" def in
    let input =
      lacks-IsNil r.artifact_input "supports_artifact_input" input_unsupported
        "capability does not advertise artifact input support" def in
    (
      (λ h.
          let (abc, d) = (append-IsNil _ _).0 h in
          let (ab, c) = (append-IsNil _ _).0 abc in
          let (a, b) = (append-IsNil _ _).0 ab in (fanout.0 a, graph.0 b, reopen.0 c, input.0 d)),
      (λ h. (append-IsNil _ _).1 (
        (append-IsNil _ _).1 ((append-IsNil _ _).1 (fanout.1 h.0, graph.1 h.1), reopen.1 h.2),
        input.1 h.3,
      )),
    )

module _ {W : Type 0} (req : Request) (uuid : String) (now : ℤ) where
  -- An entry that is there, enabled, and advertises what the request requires.
  abbrev pub Serves : Option (Entry W) → Type 0
  Serves o =
      (entry : Entry W) × (o ≡ some entry)
      × (entry.definition.enabled ≡ true)
      × IsSupported entry.definition req.requirements

  abbrev pub Judged : Option (Entry W) → Outcome (MatchResult W) → Type 0
  Judged o out =
      (m : MatchResult W) × (out ≡ found m)
      × ((m.supported ≡ true) ↔ Serves o)
      × ((m.supported ≡ true) ⊎ ((m.resolution ≡ none) × (m.reasons ≢ [])))

  refused :
      (o : Option (Entry W)) (r : UnsupportedReason) (rs : List UnsupportedReason)
      → (Serves o → ⊥)
      → Judged o (found (record { supported = false; resolution = none; reasons = r ∷ rs }))
  refused o r rs none_serves = (
    record { supported = false; resolution = none; reasons = r ∷ rs },
    refl,
    ((λ h. cc), (λ serves. absurd (none_serves serves))),
    inr (refl, (λ h. cc)),
  )

  gated :
      (entry : Entry W) (b : Bool)
      → entry.definition.enabled ≡ b
      → entry_answer req uuid now (some entry)
        ≡ (if not b then failed capability_disabled else found (resolution_of req uuid now entry))
  gated entry b e =
      ap
        (λ on.
          if not on then failed capability_disabled else found (resolution_of req uuid now entry))
        e

  of_reasons-Judged :
      (entry : Entry W)
      → entry.definition.enabled ≡ true
      → (rs : List UnsupportedReason) → IsNil rs ↔ IsSupported entry.definition req.requirements
      → Judged (some entry) (found (of_reasons (resolution_of req uuid now entry) rs))
  of_reasons-Judged entry on [] nil = (
    of_reasons (resolution_of req uuid now entry) [],
    refl,
    ((λ _. (entry, refl, on, nil.0 refl)), (λ _. refl)),
    inl refl,
  )
  of_reasons-Judged entry on (r ∷ rs) nil = refused (some entry) r rs (λ s.
      let (other, same, enabled, supported) = s in
      let here : other ≡ entry = cc in
      let no_reason : r ∷ rs ≡ [] =
        nil.1 (subst (λ o. IsSupported o.definition req.requirements) here supported) in
      cc)

  of_entry-Judged : (o : Option (Entry W)) → Judged o (of_outcome req (entry_answer req uuid now o))
  unfolding unsupported_reason_from_error
  of_entry-Judged none = elim (Bool-cases (req.action.tool_version == "")) [
    | inl e ↦ rw e (refused none _ [] (λ s. some-ne-none (sym s.1)))
    | inr e ↦ rw e (refused none _ [] (λ s. some-ne-none (sym s.1)))
  ]
  of_entry-Judged (some entry) = elim (Bool-cases entry.definition.enabled) [
    | inl e ↦
        let on : entry_answer req uuid now (some entry) ≡ found (resolution_of req uuid now entry) =
          gated entry true e in
        subst (λ a. Judged (some entry) (of_outcome req a)) (sym on)
          (of_reasons-Judged entry e
            (unsupported_reasons_for_definition entry.definition req.requirements)
            (reasons-IsNil entry.definition req.requirements))
    | inr e ↦
        let off : entry_answer req uuid now (some entry) ≡ failed capability_disabled =
          gated entry false e in
        subst (λ a. Judged (some entry) (of_outcome req a)) (sym off)
          (refused (some entry) _ [] (λ s. let (other, same, enabled, supported) = s in cc))
  ]

  -- A request is always judged, never answered by an error: it is supported exactly if the registry
  -- resolves its tool and version, that entry is enabled, and it advertises everything that the
  -- request requires; and if it is not supported, a reason is given and nothing is resolved.
  pub match_request-Judged :
      (registry : Registry W)
      → Judged
          (resolve req.action.tool_name req.action.tool_version registry)
          (match_request registry uuid now req)
  unfolding match_request resolve_request
  match_request-Judged registry =
      of_entry-Judged (resolve req.action.tool_name req.action.tool_version registry)
