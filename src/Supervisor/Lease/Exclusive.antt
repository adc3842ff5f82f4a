-- ===== src/Supervisor/Lease/Exclusive.antt =====
-- A leased rank stays with its server: no call for another server takes it.
use yllm.Base.{
  ℕ, zero, suc, ◌<◌, ◌≡◌, ◌≢◌, refl, sym, ◌∙◌, ap, subst, false, inl, inr, ◌⊎◌, Option, some, List,
  [], ◌∷◌, ◌++◌, arith, if◌then◌else◌, Bool-cases, Option-cases, length, get_elem?,
  get_elem?-append_left, lt-length_of_some, leb,
}
use yllm.Base.Outcome.{done}
use yllm.Base.Text.{Bytes, equal, equal_ne, is_empty, is_empty_ne}
use yllm.Node.{Floats}
use yllm.Supervisor.Heartbeat.Branches.{
  heard, handle_heartbeat_known, handle_heartbeat_full, handle_heartbeat_new,
}
use yllm.Supervisor.Heartbeat.{
  find_node, sync_server_to_router, update_node, finish_beat, modify, new_sv, handle_heartbeat,
}
use yllm.Supervisor.Lease.Leader.{get_elem?-mark_leases}
use yllm.Supervisor.Lease.Grant.{handle_lease-Leaves}
use yllm.Supervisor.Lease.{
  server_id, is_eligible, mark_leases, LeaseReply, handle_lease, free_leases, handle_release,
  expire_leases, lease_expire_check,
}
use yllm.Supervisor.Types.{SvNode, Supervisor, Notice, max_nodes}

module _ {D : Type 0} (holder : Bytes) (expire : ℕ) where
  -- The node number `j` is leased to `holder` until `expire`.
  abbrev pub Holds : ℕ → List (SvNode D) → Type 0
  Holds j svs =
      (sv : SvNode D) × (get_elem? svs j ≡ some sv)
      × (sv.leased_by ≡ holder)
      × (sv.lease_expire ≡ expire)

  not_eligible :
      (srv model : Bytes) (sv : SvNode D)
      → sv.leased_by ≡ holder
      → holder ≢ []
      → srv ≢ holder
      → is_eligible srv model sv ≡ false
  unfolding is_eligible
  not_eligible srv model sv h filled other =
      let taken : is_empty sv.leased_by ≡ false =
        is_empty_ne sv.leased_by (λ e. filled (sym h ∙ e)) in
      let theirs : equal sv.leased_by srv ≡ false =
        equal_ne sv.leased_by srv (λ e. other (sym e ∙ h)) in
      ground (arith, taken, theirs)

  mark_leases-Holds :
      (srv model : Bytes) (until j : ℕ) (svs : List (SvNode D))
      → holder ≢ []
      → srv ≢ holder
      → Holds j svs
      → Holds j (mark_leases srv model until svs)
  mark_leases-Holds srv model until j svs filled other (sv, at, h, e) = (
    sv,
    get_elem?-mark_leases srv model until j svs sv at
        ∙ ap (λ b. some (if b then record sv { leased_by = srv; lease_expire = until } else sv))
            (not_eligible srv model sv h filled other),
    h,
    e,
  )

  free_leases-Holds :
      (srv : Bytes) (j : ℕ) (svs : List (SvNode D))
      → srv ≢ holder
      → Holds j svs
      → Holds j (free_leases srv svs)
  unfolding free_leases
  free_leases-Holds srv j [] other (sv, at, h, e) = absurd (ground arith)
  free_leases-Holds srv zero (x ∷ svs) other (sv, at, h, e) =
      let theirs = equal_ne x.leased_by srv (λ same. other (sym same ∙ ground arith)) in
      (sv, ground (arith, theirs), h, e)
  free_leases-Holds srv (suc j) (x ∷ svs) other (sv, at, h, e) =
      free_leases-Holds srv j svs other (sv, at, h, e)

  expire_leases-Holds :
      (now j : ℕ) (svs : List (SvNode D))
      → (expire ≡ 0) ⊎ (now < expire)
      → Holds j svs
      → Holds j (expire_leases now svs)
  unfolding expire_leases
  expire_leases-Holds now j [] early (sv, at, h, e) = absurd (ground arith)
  expire_leases-Holds now zero (x ∷ svs) (inl never) (sv, at, h, e) = (sv, ground arith, h, e)
  expire_leases-Holds now zero (x ∷ svs) (inr early) (sv, at, h, e) = (sv, ground arith, h, e)
  expire_leases-Holds now (suc j) (x ∷ svs) early (sv, at, h, e) =
      expire_leases-Holds now j svs early (sv, at, h, e)

  leased_by-finish_beat :
      (peer : Option Bytes) (sv : SvNode D)
      → ((finish_beat peer sv).0.leased_by ≡ sv.leased_by)
        × ((finish_beat peer sv).0.lease_expire ≡ sv.lease_expire)
  unfolding finish_beat sync_server_to_router
  leased_by-finish_beat peer sv = (ground arith, ground arith)

  append-Holds :
      (j : ℕ) (svs : List (SvNode D)) (x : SvNode D) → Holds j svs → Holds j (svs ++ x ∷ [])
  append-Holds j svs x (sv, at, h, e) =
      (sv, get_elem?-append_left svs (x ∷ []) j (lt-length_of_some svs j sv at) ∙ at, h, e)

  modify-Holds :
      (i j : ℕ) (f : SvNode D → SvNode D × List (Notice D)) (svs : List (SvNode D))
      → ((sv : SvNode D)
          → ((f sv).0.leased_by ≡ sv.leased_by) × ((f sv).0.lease_expire ≡ sv.lease_expire))
      → Holds j svs
      → Holds j (modify i f svs).0
  unfolding modify
  modify-Holds i j f [] keeps (sv, at, h, e) = absurd (ground arith)
  modify-Holds zero zero f (x ∷ svs) keeps (sv, at, h, e) =
      ((f x).0, refl, (keeps x).0 ∙ ground arith, (keeps x).1 ∙ ground arith)
  modify-Holds zero (suc j) f (x ∷ svs) keeps (sv, at, h, e) = (sv, at, h, e)
  modify-Holds (suc i) zero f (x ∷ svs) keeps (sv, at, h, e) = (sv, at, h, e)
  modify-Holds (suc i) (suc j) f (x ∷ svs) keeps (sv, at, h, e) =
      modify-Holds i j f svs keeps (sv, at, h, e)

  handle_lease-Holds :
      (now j : ℕ) (args : Bytes) (s s' : Supervisor D) (reply : LeaseReply)
      → holder ≢ []
      → server_id args ≢ holder
      → handle_lease now args s ≡ done (s', reply)
      → Holds j s.nodes
      → Holds j s'.nodes
  handle_lease-Holds now j args s s' reply filled other h held =
      elim (handle_lease-Leaves now args s s' reply h) [
        | inl same ↦ subst (Holds j) (sym same) held
        | inr (model, until, marks) ↦
            subst (Holds j) (sym marks)
              (mark_leases-Holds (server_id args) model until j s.nodes filled other held)
      ]

module _ (F : Floats) (holder : Bytes) (expire : ℕ) where
  handle_heartbeat-Holds :
      (now j : ℕ) (peer : Option Bytes) (args : Bytes) (s : Supervisor F.Double)
      → Holds holder expire j s.nodes
      → Holds holder expire j (handle_heartbeat F now peer args s).0.nodes
  unfolding update_node
  handle_heartbeat-Holds now j peer args s held =
      elim (Option-cases (find_node (heard F now peer args s).node_id s)) [
        | inr (i, known) ↦ rw (handle_heartbeat_known F now peer args s i known) (
            modify-Holds holder expire i j
              (λ sv. finish_beat peer (update_node (heard F now peer args s) sv)) s.nodes
              (λ sv.
                leased_by-finish_beat holder expire peer (update_node (heard F now peer args s) sv))
              held)
        | inl new ↦ elim (Bool-cases (leb max_nodes (length s.nodes))) [
          | inl full ↦ rw (handle_heartbeat_full F now peer args s new full) held
          | inr room ↦ rw (handle_heartbeat_new F now peer args s new room) (
              append-Holds holder expire j s.nodes
                (finish_beat peer (new_sv (heard F now peer args s))).0 held)
        ]
      ]

  -- What may happen while `holder` does not give its ranks back and its lease does not run out.
  pub data Others : Supervisor F.Double → Supervisor F.Double → Type 0 where
    stop : {s : Supervisor F.Double} → Others s s
    lease :
        {s s' t : Supervisor F.Double} (now : ℕ) (args : Bytes) (reply : LeaseReply)
        → server_id args ≢ holder
        → handle_lease now args s ≡ done (s', reply)
        → Others s' t
        → Others s t
    release :
        {s t : Supervisor F.Double} (args : Bytes)
        → server_id args ≢ holder
        → Others (handle_release args s) t
        → Others s t
    check :
        {s t : Supervisor F.Double} (now : ℕ)
        → (expire ≡ 0) ⊎ (now < expire)
        → Others (lease_expire_check now s) t
        → Others s t
    heartbeat :
        {s t : Supervisor F.Double} (now : ℕ) (peer : Option Bytes) (args : Bytes)
        → Others (handle_heartbeat F now peer args s).0 t
        → Others s t

  -- A rank that is leased to a server stays leased to it, until the same time, through all leases
  -- and releases by other servers, all heartbeats, and all checks before the lease runs out.
  pub Others-Holds :
      (j : ℕ) {s t : Supervisor F.Double}
      → holder ≢ []
      → Holds holder expire j s.nodes
      → Others s t
      → Holds holder expire j t.nodes
  unfolding handle_release lease_expire_check
  Others-Holds j filled held stop = held
  Others-Holds j filled held (lease {s} {s'} {t} now args reply other h o) =
      Others-Holds j filled
        (handle_lease-Holds holder expire now j args s s' reply filled other h held) o
  Others-Holds j filled held (release {s} {t} args other o) =
      Others-Holds j filled (free_leases-Holds holder expire (server_id args) j s.nodes other held)
        o
  Others-Holds j filled held (check {s} {t} now early o) =
      Others-Holds j filled (expire_leases-Holds holder expire now j s.nodes early held) o
  Others-Holds j filled held (heartbeat {s} {t} now peer args o) =
      Others-Holds j filled (handle_heartbeat-Holds now j peer args s held) o
