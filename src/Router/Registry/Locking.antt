-- ===== src/Router/Registry/Locking.antt =====
-- The mutex across the notices.
use yllm.Base.{
  ℕ, ◌≤◌, ◌<◌, ◌≡◌, refl, true, false, none, some, arith, inl, inr, Option-cases, length,
}
use yllm.Base.Outcome.{Outcome, done, hang, fault}
use yllm.Base.Text.{Bytes}
use yllm.Router.Pick.{pick_server}
use yllm.Router.Registry.{
  find_server, notice_id, handle_server_add, handle_server_del, handle_server_update,
}
use yllm.Node.{Floats}
use yllm.Router.Types.{Router, max_servers}

-- The call returns, and leaves the mutex free.
abbrev pub Frees : {D : Type 0} → Outcome (Router D) → Type 0
Frees (done r) = r.locked ≡ false
Frees hang = ⊥
Frees fault = ⊥

-- From a free mutex, a notice of departure or of load always returns and frees the mutex.
pub handle_server_del-update-Frees :
    (F : Floats) (now : ℕ) (args : Bytes) (r : Router F.Double)
    → r.locked ≡ false
    → Frees (handle_server_del args r) × Frees (handle_server_update F now args r)
unfolding handle_server_del handle_server_update
handle_server_del-update-Frees F now args r free = (ground arith, ground arith)

-- So does a notice of arrival, as long as the table has room.
pub handle_server_add-Frees :
    (F : Floats) (now : ℕ) (args : Bytes) (r : Router F.Double)
    → r.locked ≡ false
    → length r.servers < max_servers
    → Frees (handle_server_add F now args r)
unfolding handle_server_add
handle_server_add-Frees F now args r free room = elim (Option-cases (notice_id args)) [
  | inl nameless ↦ ground arith
  | inr (id, named) ↦ elim (Option-cases (find_server id (record r { locked = true }))) [
    | inl new ↦ ground arith
    | inr (i, known) ↦ ground arith
  ]
]

-- A notice of a new server to a full table leaves the mutex held: whatever then asks for the table
-- waits for ever.
pub handle_server_add_full :
    (F : Floats) (now : ℕ) (args id : Bytes) (r : Router F.Double)
    → r.locked ≡ false
    → notice_id args ≡ some id
    → find_server id r ≡ none
    → max_servers ≤ length r.servers
    → (handle_server_add F now args r ≡ done (record r { locked = true }))
      × ((model : Bytes) → pick_server model (record r { locked = true }) ≡ hang)
      × (handle_server_add F now args (record r { locked = true }) ≡ hang)
unfolding handle_server_add pick_server find_server
handle_server_add_full F now args id r free named unknown full =
    (ground arith, (λ model. refl), ground arith)
