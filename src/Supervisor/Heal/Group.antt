-- ===== src/Supervisor/Heal/Group.antt =====
-- The group of a rank that dies.
use yllm.Base.{
  ℕ, zero, suc, ◌+◌, ◌<◌, ◌≤◌, ◌≡◌, ◌≢◌, refl, sym, ◌∙◌, ap, subst, true, false, inl, inr, ◌⊎◌,
  some, List, [], ◌∷◌, arith, if◌then◌else◌, Bool-cases, ◌==◌, get_elem?,
}
use yllm.Base.Text.{Bytes, equal, equal_iff, equal_ne, is_empty, is_empty_ne}
use yllm.Supervisor.Heal.{free_group}
use yllm.Supervisor.Lease.{clear_lease}
use yllm.Supervisor.Types.{SvNode}

module _ {D : Type 0} (at : ℕ) where
  free_group-nil : (j : ℕ) (svs : List (SvNode D)) → free_group at j [] svs ≡ svs
  unfolding free_group
  free_group-nil j [] = refl
  free_group-nil j (sv ∷ svs) = elim (Bool-cases (is_empty sv.leased_by)) [
    | inl empty ↦ ground (arith, empty, free_group-nil (suc j) svs)
    | inr full ↦
        let other = equal_ne sv.leased_by [] (λ e. ground (arith, full, e)) in
        ground (arith, other, free_group-nil (suc j) svs)
  ]

  -- The entry after the loop, at index `j + k` of the table.
  abbrev Freed : Bytes → ℕ → SvNode D → SvNode D → Type 0
  Freed holder i sv sv' =
      (sv.leased_by ≡ holder → i ≤ at → sv' ≡ clear_lease sv)
      × ((sv.leased_by ≢ holder) ⊎ (at < i) → sv' ≡ sv)

  free_group_hit :
      (holder : Bytes) (j : ℕ) (sv : SvNode D) (svs : List (SvNode D))
      → holder ≢ []
      → sv.leased_by ≡ holder
      → free_group at j holder (sv ∷ svs)
        ≡ clear_lease sv ∷ free_group at (suc j) (if at == j then [] else holder) svs
  unfolding free_group
  free_group_hit holder j sv svs filled h =
      let same : equal sv.leased_by holder ≡ true = (equal_iff sv.leased_by holder).1 h in
      let full = is_empty_ne sv.leased_by (λ e. filled (sym h ∙ e)) in rw (same, full) refl

  free_group_miss :
      (holder : Bytes) (j : ℕ) (sv : SvNode D) (svs : List (SvNode D))
      → sv.leased_by ≢ holder
      → free_group at j holder (sv ∷ svs) ≡ sv ∷ free_group at (suc j) holder svs
  unfolding free_group
  free_group_miss holder j sv svs ne =
      let other = equal_ne sv.leased_by holder ne in ground (arith, other)

  free_group-Freed :
      (holder : Bytes) (j p k : ℕ) (svs : List (SvNode D)) (r sv : SvNode D)
      → holder ≢ []
      → at ≡ j + p
      → get_elem? svs p ≡ some r
      → r.leased_by ≡ holder
      → get_elem? svs k ≡ some sv
      → (sv' : SvNode D) × (get_elem? (free_group at j holder svs) k ≡ some sv')
        × Freed holder (j + k) sv sv'
  free_group-Freed holder j p k [] r sv filled q here leased h = absurd (ground arith)
  free_group-Freed holder j p zero (x ∷ svs) r sv filled q here leased h =
      let is : x ≡ sv = cc in
      elim (Bool-cases (equal x.leased_by holder)) [
        | inl same ↦
            let held = (equal_iff x.leased_by holder).0 same in
            (
              clear_lease x,
              rw (free_group_hit holder j x svs filled held) refl,
              ((λ e le. ap (λ v. clear_lease v) is), (λ c. absurd (no_other held is c))),
            )
        | inr differ ↦
            let ne : x.leased_by ≢ holder =
              λ e. ground (arith, differ, (equal_iff x.leased_by holder).1 e) in
            (
              x,
              rw (free_group_miss holder j x svs ne) refl,
              ((λ e le. absurd (ne (ap (λ v. v.leased_by) is ∙ e))), (λ c. is)),
            )
      ]
    where
      no_other : x.leased_by ≡ holder → x ≡ sv → (sv.leased_by ≢ holder) ⊎ (at < j + 0) → ⊥
      no_other held is (inl ne) = ne (ap (λ v. v.leased_by) (sym is) ∙ held)
      no_other held is (inr lt) = omega arith
  free_group-Freed holder j zero (suc k) (x ∷ svs) r sv filled q here leased h =
      let is : x ≡ r = cc in
      let last : (at == j) ≡ true = ground (arith, q) in
      (
        sv,
        rw (free_group_hit holder j x svs filled (ap (λ v. v.leased_by) is ∙ leased), last)
            (rw (free_group-nil (suc j) svs) h),
        ((λ e le. absurd (omega arith)), (λ c. refl)),
      )
  free_group-Freed holder j (suc p) (suc k) (x ∷ svs) r sv filled q here leased h =
      let (sv', found, freed) =
        free_group-Freed holder (suc j) p k svs r sv filled (omega arith) here leased h in
      let more : (at == j) ≡ false = ground (arith, q) in
      (
        sv',
        elim (Bool-cases (equal x.leased_by holder)) [
          | inl same ↦
              rw
                (free_group_hit holder j x svs filled ((equal_iff x.leased_by holder).0 same), more)
                found
          | inr differ ↦
              rw
                (free_group_miss holder j x svs
                  (λ e. ground (arith, differ, (equal_iff x.leased_by holder).1 e)))
                found
        ],
        subst (λ i. Freed holder i sv sv') (omega arith) freed,
      )

  -- The loop that gives back the group of a dying rank, at index `at`, frees the ranks of its server up
  -- to that index, and leaves those behind it leased.
  pub free_group_frees :
      (holder : Bytes) (svs : List (SvNode D)) (r : SvNode D)
      → holder ≢ []
      → get_elem? svs at ≡ some r
      → r.leased_by ≡ holder
      → (k : ℕ) (sv : SvNode D) → get_elem? svs k ≡ some sv
      → (sv' : SvNode D) × (get_elem? (free_group at 0 holder svs) k ≡ some sv')
        × ((sv.leased_by ≡ holder → k ≤ at → sv' ≡ clear_lease sv)
            × ((sv.leased_by ≢ holder) ⊎ (at < k) → sv' ≡ sv))
  free_group_frees holder svs r filled here leased k sv h =
      let (sv', found, freed) =
        free_group-Freed holder 0 at k svs r sv filled (omega arith) here leased h in
      (sv', found, subst (λ i. Freed holder i sv sv') (omega arith) freed)
