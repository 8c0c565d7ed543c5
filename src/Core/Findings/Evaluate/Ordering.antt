-- ===== src/Core/Findings/Evaluate/Ordering.antt =====
-- `evaluate` sorts what the rules found.
use samfscon.Prelude.{
  ℕ, Bool, true, false, List, [], ◌∷◌, ◌≡◌, ◌⊎◌, ◌↔◌, inl, inr, refl, sym, ap, ◌∙◌, arith, ltb,
  ◌==◌, All, Bool-cases, if◌then◌else◌,
}
use mathlib.Core.List.{Memᴰ}
use samfscon.Prelude.Text.{lower}
use samfscon.Prelude.Sort.{
  text_le, text_le_antisymm, text_le_total, text_le_trans, IsSorted, sort-IsSorted, sort-Mem,
}
use samfscon.Core.Findings.Types.{Finding, Severity, high, medium, low, info}
use samfscon.Core.Findings.Hosts.{IpAddress}
use samfscon.Core.Findings.Evaluate.{Inputs, rank, finding_le, gather, evaluate}
use samfscon.Core.Findings.Evaluate.Sources.{IsFound, gather-IsFound, IsFound-gather}

finding_le_total : (a b : Finding) → finding_le a b ≡ false → finding_le b a ≡ true
unfolding finding_le
finding_le_total a b h = ground (
  arith,
  text_le_total (lower a.subject) (lower b.subject),
  text_le_total (lower b.subject) (lower a.subject),
  text_le_total a.id b.id,
)

finding_le_trans :
    (a b c : Finding) → finding_le a b ≡ true → finding_le b c ≡ true → finding_le a c ≡ true
unfolding finding_le
finding_le_trans a b c h k =
    let s = lower a.subject in
    let t = lower b.subject in
    let u = lower c.subject in
    ground (
      arith,
      text_le_trans a.id b.id c.id,
      text_le_trans s t u,
      text_le_trans u t s,
      text_le_trans u s t,
      text_le_trans t u s,
      text_le_total s t,
      text_le_total t u,
      text_le_total u s,
      text_le_total t s,
      text_le_total u t,
      text_le_total s u,
    )

-- The first severity is worse than the second.
abbrev pub is_worse : Severity → Severity → Bool
is_worse high high = false
is_worse high medium = true
is_worse high low = true
is_worse high info = true
is_worse medium high = false
is_worse medium medium = false
is_worse medium low = true
is_worse medium info = true
is_worse low high = false
is_worse low medium = false
is_worse low low = false
is_worse low info = true
is_worse info s = false

-- A finding may stand before another: it is worse, or as bad and its subject in small letters comes
-- first, or these are the same and its id does not come after the other's.
abbrev pub Precedes : Finding → Finding → Type 0
Precedes a b =
    (is_worse a.severity b.severity ≡ true)
    ⊎ ((a.severity ≡ b.severity)
        × ((text_le (lower b.subject) (lower a.subject) ≡ false)
            ⊎ ((lower a.subject ≡ lower b.subject) × (text_le a.id b.id ≡ true))))

-- Every finding precedes the later ones.
abbrev pub IsOrdered : List Finding → Type 0
IsOrdered [] = Unit
IsOrdered (f ∷ fs) = All (Precedes f) fs × IsOrdered fs

rank_worse : (s t : Severity) → ltb (rank s) (rank t) ≡ is_worse s t
unfolding rank
rank_worse high high = refl
rank_worse high medium = refl
rank_worse high low = refl
rank_worse high info = refl
rank_worse medium high = refl
rank_worse medium medium = refl
rank_worse medium low = refl
rank_worse medium info = refl
rank_worse low high = refl
rank_worse low medium = refl
rank_worse low low = refl
rank_worse low info = refl
rank_worse info high = refl
rank_worse info medium = refl
rank_worse info low = refl
rank_worse info info = refl

severity_of : ℕ → Severity
severity_of n = if n == 0 then high else if n == 1 then medium else if n == 2 then low else info

severity_of-rank : (s : Severity) → severity_of (rank s) ≡ s
unfolding rank severity_of
severity_of-rank high = refl
severity_of-rank medium = refl
severity_of-rank low = refl
severity_of-rank info = refl

rank_injective : (s t : Severity) → rank s ≡ rank t → s ≡ t
rank_injective s t e = sym (severity_of-rank s) ∙ ap severity_of e ∙ severity_of-rank t

finding_le-Precedes : (a b : Finding) → finding_le a b ≡ true → Precedes a b
unfolding finding_le
finding_le-Precedes a b h = elim (Bool-cases (ltb (rank a.severity) (rank b.severity))) [
  | inl worse ↦ inl (sym (rank_worse a.severity b.severity) ∙ worse)
  | inr other ↦
      let tied : rank a.severity ≡ rank b.severity = ground arith in
      let s = lower a.subject in
      let t = lower b.subject in
      inr (
        rank_injective a.severity b.severity tied,
        elim (Bool-cases (text_le t s)) [
          | inr first ↦ inl first
          | inl back ↦
              let forth : text_le s t ≡ true = ground arith in
              inr (text_le_antisymm s t forth back, ground arith)
        ],
      )
]

later-Precedes :
    (a : Finding) (fs : List Finding) → All (λ b. finding_le a b ≡ true) fs → All (Precedes a) fs
later-Precedes a [] h = tt
later-Precedes a (f ∷ fs) h = (finding_le-Precedes a f h.0, later-Precedes a fs h.1)

IsSorted-IsOrdered : (fs : List Finding) → IsSorted finding_le fs → IsOrdered fs
IsSorted-IsOrdered [] h = tt
IsSorted-IsOrdered (f ∷ fs) h = (later-Precedes f fs h.0, IsSorted-IsOrdered fs h.1)

-- `evaluate` returns its findings in order: the worse severity first, then by subject in small
-- letters, then by id. A finding is among them exactly when one of the rules finds it, on an input
-- that was read.
pub evaluate-IsOrdered :
    (ip : IpAddress) (i : Inputs) (f : Finding)
    → IsOrdered (evaluate ip i) × (Memᴰ f (evaluate ip i) ↔ IsFound ip i f)
unfolding evaluate
evaluate-IsOrdered ip i f =
    let kept = sort-Mem finding_le f (gather ip i) in
    (
      IsSorted-IsOrdered (evaluate ip i)
          (sort-IsSorted finding_le finding_le_total finding_le_trans (gather ip i)),
      (λ m. gather-IsFound ip f i (kept.0 m), λ h. kept.1 (IsFound-gather ip f i h)),
    )
