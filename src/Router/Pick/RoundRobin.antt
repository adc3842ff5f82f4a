-- ===== src/Router/Pick/RoundRobin.antt =====
-- The round-robin branch of `pick_server`, and what it leaves behind.
use yllm.Base.{
  ℕ, zero, suc, ◌+◌, ◌%◌, ◌<◌, ◌≡◌, refl, true, false, some, List, [], ◌∷◌, arith, inl, inr,
  Bool-cases, get_elem?, take,
}
use yllm.Base.Outcome.{done, hang}
use yllm.Base.Text.{Bytes}
use yllm.Router.Pick.{
  serves, count_serving, nth_serving, is_round_robin, pick_server, router_model_known,
}
use yllm.Router.Types.{RtServer, Router}

module _ {D : Type 0} (model : Bytes) where
  -- Entry `j` is number `k`, from 0, of those that serve the model.
  abbrev pub IsNth : ℕ → ℕ → List (RtServer D) → Type 0
  IsNth k j ss =
      (s : RtServer D) × (get_elem? ss j ≡ some s)
      × (serves model s ≡ true)
      × (count_serving model (take j ss) ≡ k)

  nth_serving-IsNth :
      (k i : ℕ) (ss : List (RtServer D))
      → k < count_serving model ss
      → (j : ℕ) × (nth_serving model k i ss ≡ some (i + j)) × IsNth k j ss
  unfolding count_serving nth_serving
  nth_serving-IsNth zero i [] h = elim h [ ]
  nth_serving-IsNth (suc k) i [] h = elim h [ ]
  nth_serving-IsNth zero i (s ∷ ss) h = elim (Bool-cases (serves model s)) [
    | inl here ↦ (0, ground arith, (s, refl, here, refl))
    | inr other ↦
        let (j, found, (t, at, yes_t, before)) = nth_serving-IsNth zero (suc i) ss (ground arith) in
        (suc j, ground arith, (t, at, yes_t, ground arith))
  ]
  nth_serving-IsNth (suc k) i (s ∷ ss) h = elim (Bool-cases (serves model s)) [
    | inl here ↦
        let (j, found, (t, at, yes_t, before)) = nth_serving-IsNth k (suc i) ss (ground arith) in
        (suc j, ground arith, (t, at, yes_t, ground arith))
    | inr other ↦
        let (j, found, (t, at, yes_t, before)) =
          nth_serving-IsNth (suc k) (suc i) ss (ground arith) in
        (suc j, ground arith, (t, at, yes_t, ground arith))
  ]

  -- The table after a round-robin choice: the counter has moved on, and the mutex is still held.
  abbrev pub turned : Router D → Router D
  turned r = record r {
    locked = true;
    rr_counter = (r.rr_counter + 1) % count_serving model r.servers;
  }

  -- With a free mutex, the round-robin strategy and a ready server of the model, `pick_server`
  -- returns the ready server of the model whose number is the moved counter, with the mutex held:
  -- every later choice, and every later question for a model, waits for ever.
  pub pick_server_round_robin :
      (r : Router D)
      → r.locked ≡ false
      → is_round_robin r.strategy ≡ true
      → 0 < count_serving model r.servers
      → (i : ℕ) × (pick_server model r ≡ done (turned r, some i))
        × IsNth ((r.rr_counter + 1) % count_serving model r.servers) i r.servers
        × (pick_server model (turned r) ≡ hang)
        × (router_model_known model (turned r) ≡ hang)
  unfolding pick_server router_model_known
  pick_server_round_robin r free rr some_s =
      let (i, found, nth) =
        nth_serving-IsNth ((r.rr_counter + 1) % count_serving model r.servers) 0 r.servers
          (omega arith) in
      (i, ground arith, nth, refl, refl)
