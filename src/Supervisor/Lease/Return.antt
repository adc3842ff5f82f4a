-- ===== src/Supervisor/Lease/Return.antt =====
-- How leases end: `handle_release` and `lease_expire_check`.
use yllm.Base.{
  ℕ, zero, suc, ◌<◌, ◌≤◌, ◌≡◌, ◌≢◌, refl, sym, ◌∙◌, ap, true, false, inl, inr, some, List, [], ◌∷◌,
  arith, if◌then◌else◌, Bool-cases, get_elem?, ltb, leb, ◌&&◌, not,
}
use yllm.Base.Text.{Bytes, equal, equal_iff, equal_ne, is_empty, is_empty_ne}
use yllm.Supervisor.Lease.{
  server_id, clear_lease, free_leases, handle_release, expire_leases, lease_expire_check,
}
use yllm.Supervisor.Types.{SvNode, Supervisor}

-- Of the entries of `svs`, those with `Ends` are free in `svs'`, and the others are as they were.
abbrev pub IsCleared :
    {D : Type 0} → (SvNode D → Type 0) → List (SvNode D) → List (SvNode D) → Type 0
IsCleared {D} Ends svs svs' =
    (j : ℕ) (sv : SvNode D)
    → get_elem? svs j ≡ some sv
    → (Ends sv → get_elem? svs' j ≡ some (clear_lease sv))
      × ((Ends sv → ⊥) → get_elem? svs' j ≡ some sv)

module _ {D : Type 0} where
  free_leases-IsCleared :
      (holder : Bytes) (svs : List (SvNode D))
      → holder ≢ []
      → IsCleared (λ sv. sv.leased_by ≡ holder) svs (free_leases holder svs)
  unfolding free_leases
  free_leases-IsCleared holder [] filled j sv h = absurd (ground arith)
  free_leases-IsCleared holder (x ∷ svs) filled zero sv h = (
    (λ e.
        frees x (ap (λ v. v.leased_by) (some_eq h) ∙ e)
        ∙ ap (λ v. some (clear_lease v)) (some_eq h)),
    (λ ne. keeps x (λ e. ne (ap (λ v. v.leased_by) (sym (some_eq h)) ∙ e)) ∙ h),
  )
    where
      some_eq : {u v : SvNode D} → some u ≡ some v → u ≡ v
      some_eq q = cc

      frees :
          (v : SvNode D)
          → v.leased_by ≡ holder
          → some
              (if not (is_empty v.leased_by) && equal v.leased_by holder then clear_lease v else v)
            ≡ some (clear_lease v)
      frees v e =
          let same : equal v.leased_by holder ≡ true = (equal_iff v.leased_by holder).1 e in
          let full : is_empty v.leased_by ≡ false =
            is_empty_ne v.leased_by (λ q. filled (sym e ∙ q)) in
          rw (same, full) refl

      keeps :
          (v : SvNode D)
          → (v.leased_by ≡ holder → ⊥)
          → some
              (if not (is_empty v.leased_by) && equal v.leased_by holder then clear_lease v else v)
            ≡ some v
      keeps v ne = let differ = equal_ne v.leased_by holder ne in ground (arith, differ)
  free_leases-IsCleared holder (x ∷ svs) filled (suc j) sv h =
      free_leases-IsCleared holder svs filled j sv h

  expire_leases-IsCleared :
      (now : ℕ) (svs : List (SvNode D))
      → IsCleared
          (λ sv. (0 < sv.lease_expire) × (sv.lease_expire ≤ now))
          svs
          (expire_leases now svs)
  unfolding expire_leases
  expire_leases-IsCleared now [] j sv h = absurd (ground arith)
  expire_leases-IsCleared now (x ∷ svs) zero sv h = (
    (λ e. ground (arith, e.0, e.1)),
    (λ ne. elim (Bool-cases (ltb 0 x.lease_expire && leb x.lease_expire now)) [
      | inl ends ↦ absurd (ne (ground arith, ground arith))
      | inr stays ↦ ground arith
    ]),
  )
  expire_leases-IsCleared now (x ∷ svs) (suc j) sv h = expire_leases-IsCleared now svs j sv h

  -- A release by a server frees exactly the ranks that are leased to it, and a check frees exactly
  -- those whose lease has an end that has come.
  pub handle_release-check-IsCleared :
      (now : ℕ) (args : Bytes) (s : Supervisor D)
      → server_id args ≢ []
      → IsCleared (λ sv. sv.leased_by ≡ server_id args) s.nodes (handle_release args s).nodes
        × IsCleared
            (λ sv. (0 < sv.lease_expire) × (sv.lease_expire ≤ now))
            s.nodes
            (lease_expire_check now s).nodes
  unfolding handle_release lease_expire_check
  handle_release-check-IsCleared now args s filled =
      (free_leases-IsCleared (server_id args) s.nodes filled, expire_leases-IsCleared now s.nodes)
