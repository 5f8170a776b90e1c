-- ===== src/Checks/Shared/Ended.antt =====
-- How a check's process ended (checks/shared.ts).
use internal_package_contrac.Shared.{
  String, none, ◌≡◌, ◌↔◌, refl, inl, inr, Bool-cases, ◌===◌, string_Eq, eq_of_same, ne_of_same,
}
use internal_package_contrac.Checks.Shared.{CheckEvidence, abnormal_termination}

-- A process ended as it should exactly if its status says so.
pub abnormal_termination-none_iff {ℓ} :
    {Output : Type ℓ} (result : CheckEvidence Output) (tool : String)
    → (abnormal_termination result tool ≡ none) ↔ (result.status ≡ "completed")
unfolding abnormal_termination
abnormal_termination-none_iff result tool = elim (Bool-cases (result.status === "completed")) [
  | inl completed ↦ (
    λ _. eq_of_same result.status "completed" completed,
    λ _. rw (completed, abnormal_termination) refl,
  )
  | inr other ↦ elim (Bool-cases (result.status === "spawn_error")) [
    | inl unspawned ↦ (
      λ h. absurd (cc (rw (other, unspawned, abnormal_termination) at h)),
      λ h. absurd (ne_of_same result.status "completed" other h),
    )
    | inr cut ↦ (
      λ h. absurd (cc (rw (other, cut, abnormal_termination) at h)),
      λ h. absurd (ne_of_same result.status "completed" other h),
    )
  ]
]
