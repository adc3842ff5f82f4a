-- ===== src/Supervisor/Heal/Spawns.antt =====
-- The record of processes: `spawn_record` and `spawn_kill`.
use yllm.Base.{
  ◌<◌, ◌≤◌, ◌≡◌, refl, true, false, inl, inr, ◌⊎◌, some, List, [], ◌∷◌, ◌++◌, arith, Bool-cases,
  length, ltb, take_of_length-le,
}
use yllm.Base.Int.{ℤ, pos, ltb_ℤ}
use yllm.Base.Text.{Bytes, equal, equal_refl}
use yllm.Node.{text_max}
use yllm.Supervisor.Heal.{knows, renumber, spawn_record, spawn_kill}
use yllm.Supervisor.Types.{max_nodes}

module _ (id : Bytes) (pid : ℤ) (alive : ltb_ℤ (pos 0) pid ≡ true) where
  spawn_kill-renumber :
      (ps : List (Bytes × ℤ))
      → knows id ps ≡ true
      → (spawn_kill id (renumber id pid ps)).1 ≡ some pid
  unfolding knows renumber spawn_kill
  spawn_kill-renumber [] h = absurd (ground arith)
  spawn_kill-renumber ((i, p) ∷ ps) h = elim (Bool-cases (equal i id)) [
    | inl same ↦ rw (same, same, alive) refl
    | inr other ↦ ground (arith, spawn_kill-renumber ps (ground arith), other)
  ]

  spawn_kill-append :
      (ps : List (Bytes × ℤ))
      → knows id ps ≡ false
      → (spawn_kill id (ps ++ (id, pid) ∷ [])).1 ≡ some pid
  unfolding knows spawn_kill
  spawn_kill-append [] h = let same = equal_refl id in rw (same, alive) refl
  spawn_kill-append ((i, p) ∷ ps) h = elim (Bool-cases (equal i id)) [
    | inl same ↦ absurd (ground arith)
    | inr other ↦ ground (arith, spawn_kill-append ps (ground arith), other)
  ]

  -- A process that was recorded under an identifier of at most 127 bytes, while the record knew it or
  -- had room, is the one that a kill of the identifier hits.
  pub spawn_kill-spawn_record :
      (ps : List (Bytes × ℤ))
      → length id ≤ text_max
      → (knows id ps ≡ true) ⊎ (length ps < max_nodes)
      → (spawn_kill id (spawn_record id pid ps)).1 ≡ some pid
  unfolding spawn_record
  spawn_kill-spawn_record ps short room = elim (Bool-cases (knows id ps)) [
    | inl known ↦ rw known (spawn_kill-renumber ps known)
    | inr new ↦
        let whole = take_of_length-le text_max id short in
        let fits : ltb (length ps) max_nodes ≡ true = ground (arith, room, new) in
        rw (new, fits, whole) (spawn_kill-append ps new)
  ]
