-- ===== src/Core/Findings/Evaluate/Ids.antt =====
-- The ids of the findings of each rule, put together.
use samfscon.Prelude.{
  Bool, Option, none, some, List, [], ◌∷◌, ◌++◌, if◌then◌else◌, All-append, Option-cases, inl, inr,
}
use samfscon.Prelude.Text.{Text}
use samfscon.Prelude.Dict.{Dict}
use samfscon.Core.Findings.Types.{Finding, Registry, Share}
use samfscon.Core.Findings.Stored.{stored_of, text_or_empty}
use samfscon.Core.Findings.Hosts.{IpAddress}
use samfscon.Core.Findings.Paths.{live_names, not_served_findings}
use samfscon.Core.Findings.Evaluate.{
  Inputs, findings_before, option_findings_of, share_findings, transport_part, shares_part,
  sessions_part, roots_part,
}
use samfscon.Core.Findings.Ids.{
  AllIds, Covers, option_findings-ids, transport-ids, session-ids, root-ids, path-ids,
}

module _ (P : Text → Type 0) (h : Covers P) where
  findings_before-ids :
      (ip : IpAddress) (name : Text) (stored : Option (Dict Text)) (rest : List Finding)
      → AllIds P rest
      → AllIds P (findings_before ip name stored rest)
  unfolding findings_before
  findings_before-ids ip name none rest q = q
  findings_before-ids ip name (some stored) rest q =
      All-append (λ f. P f.id) _ _ (option_findings-ids P h ip name stored) q

  option_findings_of-ids :
      (ip : IpAddress) (entries : List Share) → AllIds P (option_findings_of ip entries)
  unfolding option_findings_of
  option_findings_of-ids ip [] = tt
  option_findings_of-ids ip (e ∷ entries) =
      findings_before-ids ip (text_or_empty e.name) (stored_of e) (option_findings_of ip entries)
        (option_findings_of-ids ip entries)

  share_findings-ids :
      (ip : IpAddress) (entries : List Share) (registry : Option Registry) (suppress : Bool)
      → AllIds P (if suppress then [] else not_served_findings (live_names entries) registry)
      → AllIds P (share_findings ip entries registry suppress)
  unfolding share_findings
  share_findings-ids ip entries registry suppress last =
      All-append (λ f. P f.id) _ _ (option_findings_of-ids ip entries)
        (All-append (λ f. P f.id) _ _ (path-ids P h entries) last)

  pub rest-ids :
      (ip : IpAddress) (i : Inputs) (suppress : Bool)
      → ((live : List Text)
          → AllIds P (if suppress then [] else not_served_findings live i.registry))
      → AllIds P (
          transport_part i.transport i.server
          ++ (shares_part ip i.shares i.registry suppress
              ++ (sessions_part i.sessions ++ roots_part i.roots)))
  unfolding transport_part shares_part sessions_part roots_part
  rest-ids ip i suppress last =
      All-append (λ f. P f.id) _ _ (transport i)
        (All-append (λ f. P f.id) _ _ (shares_of i.shares)
          (All-append (λ f. P f.id) _ _ (sessions i) (roots i)))
    where
      transport : (j : Inputs) → AllIds P (transport_part j.transport j.server)
      transport j = elim (Option-cases j.transport) [
        | inl absent ↦ rw absent tt
        | inr (t, given) ↦ rw given (transport-ids P h t j.server)
      ]

      shares_of : (s : Option (List Share)) → AllIds P (shares_part ip s i.registry suppress)
      shares_of none = tt
      shares_of (some entries) =
          share_findings-ids ip entries i.registry suppress (last (live_names entries))

      sessions : (j : Inputs) → AllIds P (sessions_part j.sessions)
      sessions j = elim (Option-cases j.sessions) [
        | inl absent ↦ rw absent tt
        | inr (s, given) ↦ rw given (session-ids P h s)
      ]

      roots : (j : Inputs) → AllIds P (roots_part j.roots)
      roots j = elim (Option-cases j.roots) [
        | inl absent ↦ rw absent tt
        | inr (r, given) ↦ rw given (root-ids P h r)
      ]
