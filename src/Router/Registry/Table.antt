-- ===== src/Router/Registry/Table.antt =====
-- What the notices make of the table.
use yllm.Base.{
  ℕ, zero, suc, ◌+◌, ◌≤◌, ◌<◌, ◌≡◌, ◌≢◌, refl, ◌∙◌, ap, false, Option, none, some, List, [], ◌∷◌,
  ◌++◌, arith, inl, inr, Bool-cases, Option-cases, length, get_elem?, take, length-take,
  take_of_length-le, get_elem?-append_left, get_elem?-append_length,
}
use yllm.Base.Outcome.{done}
use yllm.Base.Scan.{find_char, scan_word, not_blank}
use yllm.Base.Text.{Bytes, equal, equal_iff, take_while, codes}
use yllm.Router.Registry.{
  find_from, find_server, modify, set_leader, set_model, announce, notice_id, handle_server_add,
  handle_server_del,
}
use yllm.Node.{ready, dead, Floats, text_max}
use yllm.Router.Types.{RtServer, Router, max_servers, new_server}
use yllm.Wire.Frame.{Frame, args_max, frame_get}

module _ {D : Type 0} where
  -- A hit, counted from the head of the list.
  find_from-some :
      (id : Bytes) (k i : ℕ) (ss : List (RtServer D))
      → find_from id k ss ≡ some i
      → (j : ℕ) × (s : RtServer D) × (i ≡ k + j) × (get_elem? ss j ≡ some s) × (s.id ≡ id)
  unfolding find_from
  find_from-some id k i [] h = absurd (ground arith)
  find_from-some id k i (s ∷ ss) h = elim (Bool-cases (equal s.id id)) [
    | inl same ↦ (0, s, ground arith, refl, (equal_iff s.id id).0 same)
    | inr other ↦
        let (j, t, at, is, named) = find_from-some id (suc k) i ss (ground arith) in
        (suc j, t, omega arith, is, named)
  ]

  -- A write that keeps the identifiers moves nothing.
  find_from-modify :
      (id : Bytes) (k i : ℕ) (f : RtServer D → RtServer D) (ss : List (RtServer D))
      → ((s : RtServer D) → (f s).id ≡ s.id)
      → find_from id k (modify i f ss) ≡ find_from id k ss
  unfolding find_from
  find_from-modify id k i f [] h = refl
  find_from-modify id k zero f (s ∷ ss) h = rw (h s)
  find_from-modify id k (suc i) f (s ∷ ss) h = rw (find_from-modify id (suc k) i f ss h)

  find_from-append :
      (id : Bytes) (k : ℕ) (ss : List (RtServer D)) (s : RtServer D)
      → find_from id k ss ≡ none
      → s.id ≡ id
      → find_from id k (ss ++ s ∷ []) ≡ some (k + length ss)
  unfolding find_from
  find_from-append id k [] s h q = ground (arith, (equal_iff s.id id).1 q)
  find_from-append id k (x ∷ ss) s h q = elim (Bool-cases (equal x.id id)) [
    | inl same ↦ absurd (ground arith)
    | inr other ↦
        rw other (find_from-append id (suc k) ss s (ground arith) q ∙ ap some (omega arith))
  ]

  get_elem?-modify_self :
      (i : ℕ) (f : RtServer D → RtServer D) (ss : List (RtServer D)) (s : RtServer D)
      → get_elem? ss i ≡ some s
      → get_elem? (modify i f ss) i ≡ some (f s)
  get_elem?-modify_self i f [] s h = absurd (ground arith)
  get_elem?-modify_self zero f (x ∷ ss) s h = ground arith
  get_elem?-modify_self (suc i) f (x ∷ ss) s h = get_elem?-modify_self i f ss s h

  get_elem?-modify_ne :
      (i j : ℕ) (f : RtServer D → RtServer D) (ss : List (RtServer D))
      → i ≢ j
      → get_elem? (modify i f ss) j ≡ get_elem? ss j
  get_elem?-modify_ne i j f [] h = refl
  get_elem?-modify_ne zero zero f (x ∷ ss) h = absurd (h refl)
  get_elem?-modify_ne zero (suc j) f (x ∷ ss) h = refl
  get_elem?-modify_ne (suc i) zero f (x ∷ ss) h = refl
  get_elem?-modify_ne (suc i) (suc j) f (x ∷ ss) h =
      get_elem?-modify_ne i j f ss (λ e. h (ap suc e))

  id-set_leader : (s : RtServer D) (o : Option Bytes) → (set_leader s o).id ≡ s.id
  unfolding set_leader
  id-set_leader s none = refl
  id-set_leader s (some vb) = ground arith

  id-set_model : (s : RtServer D) (o : Option Bytes) → (set_model s o).id ≡ s.id
  unfolding set_model
  id-set_model s none = refl
  id-set_model s (some vb) = refl

-- A notice changes no identifier.
id-announce :
    (F : Floats) (now : ℕ) (f : Frame) (s : RtServer F.Double) → (announce now f s).id ≡ s.id
unfolding announce
id-announce F now f s =
    id-set_leader (set_model s (frame_get f (codes "model") 256)) (frame_get f (codes "leader") 256)
    ∙ id-set_model s (frame_get f (codes "model") 256)

length-notice_id : (args id : Bytes) → notice_id args ≡ some id → length id ≤ text_max
unfolding notice_id
length-notice_id args id h = elim (Option-cases (find_char b' ' args)) [
  | inr (sp, found) ↦ omega (arith, cut (take_while not_blank args) (ground arith))
  | inl whole ↦ elim (Option-cases (scan_word text_max args)) [
    | inl blank ↦ absurd (ground arith)
    | inr (w, word) ↦ omega (arith, cut args (ground arith))
  ]
]
  where
    cut : (s : Bytes) → take text_max s ≡ id → length id ≤ text_max
    cut s e = omega (arith, length-take text_max s, ap length e)

-- The table `ss'` is `ss` with the server `id` announced at the time `now`: its entry is ready, and
-- every other entry is as it was.
pub record IsAnnounced {D : Type 0} (now : ℕ) (id : Bytes) (ss ss' : List (RtServer D))
    : Type 0 where
  pub at : ℕ
  pub entry : RtServer D
  pub found : find_from id 0 ss' ≡ some at
  pub is : get_elem? ss' at ≡ some entry
  pub named : entry.id ≡ id
  pub is_ready : entry.state ≡ ready
  pub stamped : entry.last_update ≡ now
  pub kept : (j : ℕ) → j < length ss → at ≢ j → get_elem? ss' j ≡ get_elem? ss j

announce_known :
    (F : Floats) (now i : ℕ) (f : Frame) (id : Bytes) (ss : List (RtServer F.Double))
    → find_from id 0 ss ≡ some i
    → IsAnnounced now id ss (modify i (announce now f) ss)
announce_known F now i f id ss known =
    let (j, s, i_is, is, named) = find_from-some id 0 i ss known in
    let same : i ≡ j = omega arith in
    record {
      at = i;
      entry = announce now f s;
      found = find_from-modify id 0 i (announce now f) ss (id-announce F now f) ∙ known;
      is = get_elem?-modify_self i (announce now f) ss s (rw same is);
      named = id-announce F now f s ∙ named;
      is_ready = unfold announce in refl;
      stamped = unfold announce in refl;
      kept = λ k h ne. get_elem?-modify_ne i k (announce now f) ss ne;
    }

announce_new :
    (F : Floats) (now : ℕ) (f : Frame) (id : Bytes) (ss : List (RtServer F.Double))
    → find_from id 0 ss ≡ none
    → IsAnnounced now id ss (ss ++ announce now f (new_server F id) ∷ [])
announce_new F now f id ss unknown = record {
  at = length ss;
  entry = announce now f (new_server F id);
  found =
      find_from-append id 0 ss _ unknown (id-announce F now f (new_server F id))
      ∙ ap some (omega arith);
  is = get_elem?-append_length ss _;
  named = id-announce F now f (new_server F id);
  is_ready = unfold announce in refl;
  stamped = unfold announce in refl;
  kept = λ k h ne. get_elem?-append_left ss _ k h;
}

-- With a free mutex and room in the table, a notice of arrival returns, with the server it names in
-- the table, ready, and every other entry as it was.
pub handle_server_add-IsAnnounced :
    (F : Floats) (now : ℕ) (args id : Bytes) (r : Router F.Double)
    → r.locked ≡ false
    → length r.servers < max_servers
    → notice_id args ≡ some id
    → (r' : Router F.Double) × (handle_server_add F now args r ≡ done r')
      × IsAnnounced now id r.servers r'.servers
unfolding handle_server_add find_server
handle_server_add-IsAnnounced F now args id r free room named =
    elim (Option-cases (find_from id 0 r.servers)) [
      | inr (i, known) ↦ (
        record r { servers = modify i (announce now f) r.servers },
        ground arith,
        announce_known F now i f id r.servers known,
      )
      | inl new ↦ (
        record r { servers = r.servers ++ announce now f (new_server F id) ∷ [] },
        ground (arith, whole),
        announce_new F now f id r.servers new,
      )
    ]
  where
    f : Frame
    f = record { cmd = codes "X"; args = take args_max args }

    whole : take text_max id ≡ id
    whole = take_of_length-le text_max id (length-notice_id args id named)

-- With a free mutex, a notice of departure marks the server that it names dead, and no other entry.
pub handle_server_del_marks :
    (F : Floats) (args id rest : Bytes) (i : ℕ) (r : Router F.Double)
    → r.locked ≡ false
    → scan_word text_max args ≡ some (id, rest)
    → find_server id r ≡ some i
    → (r' : Router F.Double) × (handle_server_del args r ≡ done r')
      × ((s : RtServer F.Double) × (get_elem? r'.servers i ≡ some s)
          × (s.id ≡ id)
          × (s.state ≡ dead))
      × ((j : ℕ) → i ≢ j → get_elem? r'.servers j ≡ get_elem? r.servers j)
unfolding handle_server_del find_server
handle_server_del_marks F args id rest i r free word known =
    let (j, s, i_is, is, named) = find_from-some id 0 i r.servers known in
    let same : i ≡ j = omega arith in
    let die : RtServer F.Double → RtServer F.Double = λ t. record t { state = dead } in
    (
      record r { servers = modify i die r.servers },
      ground arith,
      (die s, get_elem?-modify_self i die r.servers s (rw same is), named, refl),
      (λ k ne. get_elem?-modify_ne i k die r.servers ne),
    )
