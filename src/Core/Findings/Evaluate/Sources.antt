-- ===== src/Core/Findings/Evaluate/Sources.antt =====
-- Which rule a finding of `evaluate` comes from.
use samfscon.Prelude.{
  Bool, false, Option, none, some, List, [], ◌∷◌, ◌++◌, ◌≡◌, ◌≢◌, ◌⊎◌, ◌↔◌, inl, inr, refl, All,
  any, Bool-cases, arith,
}
use mathlib.Core.List.{Memᴰ}
use mathlib.Core.List.Memᴰ
use samfscon.Prelude.Text.{Text, codes, eq_text, eq_text_iff, texts_differ}
use samfscon.Prelude.Dict.{Dict}
use samfscon.Core.Findings.Types.{Finding, Transport, Share, SessionEntry}
use samfscon.Core.Findings.Stored.{stored_of, text_or_empty}
use samfscon.Core.Findings.Hosts.{IpAddress}
use samfscon.Core.Findings.Management.{management_findings}
use samfscon.Core.Findings.Connection.{transport_findings, root_findings, session_findings}
use samfscon.Core.Findings.Options.{option_findings}
use samfscon.Core.Findings.Paths.{path_findings, live_names, not_served_findings}
use samfscon.Core.Findings.Evaluate.{
  Inputs, findings_before, option_findings_of, share_findings, has_id, transport_part, shares_part,
  sessions_part, roots_part, gather,
}

-- No finding says that the shares of the registry are not served at all.
abbrev pub IsServing : List Finding → Type 0
IsServing fs = All (λ f. f.id ≢ codes "registry_shares_not_served") fs

-- A rule finds something: the rules on the server always look, each of the others where its input
-- was read, those on the options of a share for each share that was read, and the one on sections
-- that no share serves unless a finding of the server says as much.
pub data IsFound (ip : IpAddress) (i : Inputs) (f : Finding) : Type 0 where
  by_management : Memᴰ f (management_findings i.capabilities i.registry) → IsFound ip i f
  by_transport :
      (t : Transport)
      → i.transport ≡ some t
      → Memᴰ f (transport_findings t i.server)
      → IsFound ip i f
  by_options :
      (shares : List Share) (share : Share) (stored : Dict Text)
      → i.shares ≡ some shares
      → Memᴰ share shares
      → stored_of share ≡ some stored
      → Memᴰ f (option_findings ip (text_or_empty share.name) stored)
      → IsFound ip i f
  by_paths :
      (shares : List Share)
      → i.shares ≡ some shares
      → Memᴰ f (path_findings shares)
      → IsFound ip i f
  by_absence :
      (shares : List Share)
      → i.shares ≡ some shares
      → IsServing (management_findings i.capabilities i.registry)
      → Memᴰ f (not_served_findings (live_names shares) i.registry)
      → IsFound ip i f
  by_session :
      (sessions : List SessionEntry)
      → i.sessions ≡ some sessions
      → Memᴰ f (session_findings sessions)
      → IsFound ip i f
  by_root :
      (roots : Dict (Option Bool))
      → i.roots ≡ some roots
      → Memᴰ f (root_findings roots)
      → IsFound ip i f

IsServing-iff :
    (fs : List Finding)
    → (any (has_id (codes "registry_shares_not_served")) fs ≡ false) ↔ IsServing fs
unfolding has_id
IsServing-iff [] = (λ e. tt, λ h. refl)
IsServing-iff (f ∷ fs) =
    let name = codes "registry_shares_not_served" in
    (
      λ e. (texts_differ f.id name (ground arith), (IsServing-iff fs).0 (ground arith)),
      λ h. elim (Bool-cases (eq_text f.id name)) [
        | inl same ↦ absurd (h.0 ((eq_text_iff f.id name).0 same))
        | inr other ↦ ground (arith, other, (IsServing-iff fs).1 h.1)
      ],
    )

module _ (ip : IpAddress) (f : Finding) where
  -- The rules on the options of one of the shares.
  abbrev OfOptions : List Share → Type 0
  OfOptions shares =
      (share : Share) × (stored : Dict Text) × Memᴰ share shares
      × (stored_of share ≡ some stored)
      × Memᴰ f (option_findings ip (text_or_empty share.name) stored)

  option_findings_of-source :
      (shares : List Share) → Memᴰ f (option_findings_of ip shares) → OfOptions shares
  unfolding option_findings_of findings_before
  option_findings_of-source [] m = absurd (Memᴰ.not-nil m)
  option_findings_of-source (share ∷ shares) m =
      step (λ n. option_findings_of-source shares n) (stored_of share) refl m
    where
      later : OfOptions shares → OfOptions (share ∷ shares)
      later (s, d, here, read, n) = (s, d, Memᴰ.tail here, read, n)

      step :
          (Memᴰ f (option_findings_of ip shares) → OfOptions shares)
          → (stored : Option (Dict Text)) → stored_of share ≡ stored
          → Memᴰ f
              (findings_before ip (text_or_empty share.name) stored (option_findings_of ip shares))
          → OfOptions (share ∷ shares)
      step ih none e n = later (ih n)
      step ih (some d) e n =
          elim (Memᴰ.append_cases (option_findings ip (text_or_empty share.name) d) n) [
            | inl first ↦ (share, d, Memᴰ.head refl, e, first)
            | inr rest ↦ later (ih rest)
          ]

  source-option_findings_of :
      (shares : List Share) → OfOptions shares → Memᴰ f (option_findings_of ip shares)
  unfolding option_findings_of findings_before
  source-option_findings_of [] (s, d, here, read, n) = absurd (Memᴰ.not-nil here)
  source-option_findings_of (share ∷ shares) (s, d, here, read, n) =
      step (λ k. source-option_findings_of shares k) (Memᴰ.cases_cons here)
    where
      keep_rest :
          (stored : Option (Dict Text))
          → Memᴰ f (option_findings_of ip shares)
          → Memᴰ f
              (findings_before ip (text_or_empty share.name) stored (option_findings_of ip shares))
      keep_rest none k = k
      keep_rest (some e) k = Memᴰ.append_right (option_findings ip (text_or_empty share.name) e) k

      step :
          (OfOptions shares → Memᴰ f (option_findings_of ip shares))
          → (s ≡ share) ⊎ Memᴰ s shares
          → Memᴰ f (
              findings_before ip
                (text_or_empty share.name)
                (stored_of share)
                (option_findings_of ip shares))
      step ih (inl same) = rw (← same) (rw read (Memᴰ.append_left (option_findings_of ip shares) n))
      step ih (inr later) = keep_rest (stored_of share) (ih (s, d, later, read, n))

  shares_part-IsFound :
      (i : Inputs) (shares : Option (List Share))
      → i.shares ≡ shares
      → Memᴰ f (
          shares_part ip shares i.registry (
            any
              (has_id (codes "registry_shares_not_served"))
              (management_findings i.capabilities i.registry)))
      → IsFound ip i f
  unfolding shares_part share_findings
  shares_part-IsFound i none e m = absurd (Memᴰ.not-nil m)
  shares_part-IsFound i (some shares) e m =
      elim (Memᴰ.append_cases (option_findings_of ip shares) m) [
        | inl options ↦
            let (share, stored, here, read, n) = option_findings_of-source shares options in
            by_options shares share stored e here read n
        | inr rest ↦ elim (Memᴰ.append_cases (path_findings shares) rest) [
          | inl paths ↦ by_paths shares e paths
          | inr absent ↦
              elim (Bool-cases (
                any (has_id (codes "registry_shares_not_served"))
                  (management_findings i.capabilities i.registry))) [
                    | inl reported ↦ absurd (Memᴰ.not-nil (rw reported at absent))
                    | inr serving ↦
                        by_absence shares e ((IsServing-iff _).0 serving) (rw serving at absent)
                  ]
        ]
      ]

  optional_part :
      {A : Type 0} (part : Option A → List Finding) (input : Option A)
      → part none ≡ []
      → Memᴰ f (part input)
      → (a : A) × (input ≡ some a) × Memᴰ f (part (some a))
  optional_part part none e m = absurd (Memᴰ.not-nil (rw e at m))
  optional_part part (some a) e m = (a, refl, m)

  pub gather-IsFound : (i : Inputs) → Memᴰ f (gather ip i) → IsFound ip i f
  unfolding gather transport_part sessions_part roots_part
  gather-IsFound i m = elim (Memᴰ.append_cases (management_findings i.capabilities i.registry) m) [
    | inl found ↦ by_management found
    | inr m1 ↦ elim (Memᴰ.append_cases (transport_part i.transport i.server) m1) [
      | inl found ↦
          let (t, e, n) = optional_part (λ t. transport_part t i.server) i.transport refl found in
          by_transport t e n
      | inr m2 ↦ elim (Memᴰ.append_cases (shares_part ip i.shares i.registry _) m2) [
        | inl found ↦ shares_part-IsFound i i.shares refl found
        | inr m3 ↦ elim (Memᴰ.append_cases (sessions_part i.sessions) m3) [
          | inl found ↦
              let (s, e, n) = optional_part sessions_part i.sessions refl found in by_session s e n
          | inr found ↦ let (r, e, n) = optional_part roots_part i.roots refl found in by_root r e n
        ]
      ]
    ]
  ]

  IsFound-shares_part :
      (i : Inputs) (shares : List Share)
      → i.shares ≡ some shares
      → OfOptions shares
        ⊎ (Memᴰ f (path_findings shares)
            ⊎ (IsServing (management_findings i.capabilities i.registry)
                × Memᴰ f (not_served_findings (live_names shares) i.registry)))
      → Memᴰ f (
          shares_part ip i.shares i.registry (
            any
              (has_id (codes "registry_shares_not_served"))
              (management_findings i.capabilities i.registry)))
  unfolding shares_part share_findings
  IsFound-shares_part i shares e (inl options) =
      rw e (Memᴰ.append_left _ (source-option_findings_of shares options))
  IsFound-shares_part i shares e (inr (inl paths)) =
      rw e (Memᴰ.append_right (option_findings_of ip shares) (Memᴰ.append_left _ paths))
  IsFound-shares_part i shares e (inr (inr (serving, m))) = rw e (
      Memᴰ.append_right (option_findings_of ip shares)
        (Memᴰ.append_right (path_findings shares) (rw ((IsServing-iff _).1 serving) m)))

  in_shares :
      (i : Inputs)
      → Memᴰ f (
          shares_part ip i.shares i.registry (
            any
              (has_id (codes "registry_shares_not_served"))
              (management_findings i.capabilities i.registry)))
      → Memᴰ f (gather ip i)
  unfolding gather
  in_shares i m =
      Memᴰ.append_right (management_findings i.capabilities i.registry)
        (Memᴰ.append_right (transport_part i.transport i.server) (Memᴰ.append_left _ m))

  in_last :
      (i : Inputs) → Memᴰ f (sessions_part i.sessions ++ roots_part i.roots) → Memᴰ f (gather ip i)
  unfolding gather
  in_last i m = Memᴰ.append_right (management_findings i.capabilities i.registry) (
      Memᴰ.append_right (transport_part i.transport i.server)
        (Memᴰ.append_right (shares_part ip i.shares i.registry _) m))

  pub IsFound-gather : (i : Inputs) → IsFound ip i f → Memᴰ f (gather ip i)
  unfolding gather transport_part sessions_part roots_part
  IsFound-gather i (by_management m) = Memᴰ.append_left _ m
  IsFound-gather i (by_transport t e m) =
      Memᴰ.append_right (management_findings i.capabilities i.registry)
        (Memᴰ.append_left {s = transport_part i.transport i.server} _ (rw e m))
  IsFound-gather i (by_options shares share stored e here read m) =
      in_shares i (IsFound-shares_part i shares e (inl (share, stored, here, read, m)))
  IsFound-gather i (by_paths shares e m) =
      in_shares i (IsFound-shares_part i shares e (inr (inl m)))
  IsFound-gather i (by_absence shares e serving m) =
      in_shares i (IsFound-shares_part i shares e (inr (inr (serving, m))))
  IsFound-gather i (by_session sessions e m) =
      in_last i (Memᴰ.append_left (roots_part i.roots) (rw e m))
  IsFound-gather i (by_root roots e m) =
      in_last i (Memᴰ.append_right (sessions_part i.sessions) (rw e m))
