-- ===== src/Router/Registry/Notices.antt =====
-- The mutex over any run of notices.
use yllm.Base.Outcome.{Outcome, done, hang, fault, ◌>>=◌}
use yllm.Base.Scan.{scan_word}
use yllm.Base.Text.{Bytes}
use yllm.Base.{
  ℕ, ◌≡◌, refl, ap, ◌⊎◌, inl, inr, Bool, true, false, ◌||◌, Option, none, some, List, [], ◌∷◌, ◌++◌,
  arith, leb, leb→le, if◌then◌else◌, Bool-cases, Option-cases, length,
}
use yllm.Node.{Floats}
use yllm.Router.Pick.{pick_server}
use yllm.Router.Registry.Locking.{
  Frees, handle_server_add-Frees, handle_server_add_full, handle_server_del-update-Frees,
}
use yllm.Router.Registry.{
  find_server, notice_id, handle_server_add, handle_server_del, handle_server_update,
}
use yllm.Router.Types.{Router, max_servers}

pub data Notice : Type 0 where
  add : Bytes → Notice
  del : Bytes → Notice
  update : Bytes → Notice

-- A notice without an identifier is passed over before the mutex is asked for.
abbrev is_some {ℓ} : {A : Type ℓ} → Option A → Bool
is_some none = false
is_some (some x) = true

abbrev pub is_named : Notice → Bool
is_named (add args) = is_some (notice_id args)
is_named (del args) = is_some (scan_word 127 args)
is_named (update args) = is_some (scan_word 127 args)

module _ (F : Floats) where
  unfoldable pub take_notice : ℕ × Notice → Router F.Double → Outcome (Router F.Double)
  take_notice (now, add args) r = handle_server_add F now args r
  take_notice (now, del args) r = handle_server_del args r
  take_notice (now, update args) r = handle_server_update F now args r

  -- Notices with their times, one after another.
  abbrev pub run : List (ℕ × Notice) → Router F.Double → Outcome (Router F.Double)
  run [] r = done r
  run (n ∷ ns) r = take_notice n r >>= λ t. run ns t

  -- Whether a notice announces a new server to a full table.
  unfoldable pub is_too_many : ℕ × Notice → Router F.Double → Bool
  is_too_many (now, del args) r = false
  is_too_many (now, update args) r = false
  is_too_many (now, add args) r = elim (notice_id args) [
    | none ↦ false
    | some id ↦ elim (find_server id r) [
      | some _ ↦ false
      | none ↦ leb max_servers (length r.servers)
    ]
  ]

  -- Whether one of the notices of a run does.
  abbrev pub any_too_many : List (ℕ × Notice) → Router F.Double → Bool
  any_too_many [] r = false
  any_too_many (n ∷ ns) r =
      is_too_many n r
      || (elim (take_notice n r) [ done t ↦ any_too_many ns t | hang ↦ false | fault ↦ false ])

  -- A notice that does leaves the table as it is, with the mutex held.
  too_many :
      (n : ℕ × Notice) (r : Router F.Double)
      → r.locked ≡ false
      → is_too_many n r ≡ true
      → take_notice n r ≡ done (record r { locked = true })
  unfolding is_too_many take_notice handle_server_add find_server
  too_many (now, del args) r free many = absurd (ground (arith, many))
  too_many (now, update args) r free many = absurd (ground (arith, many))
  too_many (now, add args) r free many = elim (Option-cases (notice_id args)) [
    | inl nameless ↦ absurd (ground (arith, nameless, many))
    | inr (id, named) ↦ elim (Option-cases (find_server id r)) [
      | inl new ↦
          (handle_server_add_full F now args id r free named new
            (leb→le _ _ (ground (arith, named, new, many)))).0
      | inr (i, known) ↦ absurd (ground (arith, named, known, many))
    ]
  ]

  -- Any other leaves the mutex free.
  abbrev IsDone : Outcome (Router F.Double) → Type 0
  IsDone o = (t : Router F.Double) × (o ≡ done t) × (t.locked ≡ false)

  Frees-IsDone : (o : Outcome (Router F.Double)) → Frees o → IsDone o
  Frees-IsDone (done t) h = (t, refl, h)
  Frees-IsDone hang h = absurd h
  Frees-IsDone fault h = absurd h

  fits :
      (n : ℕ × Notice) (r : Router F.Double)
      → r.locked ≡ false
      → is_too_many n r ≡ false
      → Frees (take_notice n r)
  unfolding is_too_many take_notice
  fits (now, del args) r free few = (handle_server_del-update-Frees F now args r free).0
  fits (now, update args) r free few = (handle_server_del-update-Frees F now args r free).1
  fits (now, add args) r free few = elim (Bool-cases (leb max_servers (length r.servers))) [
    | inr room ↦ handle_server_add-Frees F now args r free (ground (arith, room))
    | inl full ↦ elim (Option-cases (notice_id args)) [
      | inl nameless ↦ unfold handle_server_add in ground (arith, nameless, free)
      | inr (id, named) ↦ elim (Option-cases (find_server id r)) [
        | inl new ↦ absurd (ground (arith, named, new, few, full))
        | inr (i, known) ↦
            let known' : find_server id (record r { locked = true }) ≡ some i =
              unfold find_server in known in
            unfold handle_server_add in ground (arith, named, known', free)
      ]
    ]
  ]

  -- From a held mutex a notice without an identifier is passed over, and any other waits for ever.
  take_notice-held :
      (n : ℕ × Notice) (r : Router F.Double)
      → take_notice n (record r { locked = true })
        ≡ (if is_named n.1 then hang else done (record r { locked = true }))
  unfolding take_notice handle_server_add handle_server_del handle_server_update
  take_notice-held (now, add args) r = elim (Option-cases (notice_id args)) [
    | inl none_ ↦ rw (handle_server_add, none_) refl
    | inr (id, some_) ↦ rw (handle_server_add, some_) refl
  ]
  take_notice-held (now, del args) r = elim (Option-cases (scan_word 127 args)) [
    | inl none_ ↦ rw (handle_server_del, none_) refl
    | inr (id, some_) ↦ rw (handle_server_del, some_) refl
  ]
  take_notice-held (now, update args) r = elim (Option-cases (scan_word 127 args)) [
    | inl none_ ↦ rw (handle_server_update, none_) refl
    | inr (id, some_) ↦ rw (handle_server_update, some_) refl
  ]

  abbrev pub names : List (ℕ × Notice) → Bool
  names [] = false
  names (n ∷ ns) = is_named n.1 || names ns

  run-held :
      (ns : List (ℕ × Notice)) (r : Router F.Double)
      → run ns (record r { locked = true })
        ≡ (if names ns then hang else done (record r { locked = true }))
  run-held [] r = refl
  run-held (n ∷ ns) r = elim (Bool-cases (is_named n.1)) [
    | inl named ↦ rw (take_notice-held n r, named) refl
    | inr nameless ↦ rw (take_notice-held n r, nameless) (run-held ns r)
  ]

  -- The run gets to a notice of a new server to a full table `t`, and stops behind it.
  abbrev pub IsStuck : List (ℕ × Notice) → Router F.Double → Type 0
  IsStuck ns r =
      (before : List (ℕ × Notice)) × (n : ℕ × Notice) × (after : List (ℕ × Notice)) × (t : Router
        F.Double)
      × (ns ≡ before ++ n ∷ after)
      × (run before r ≡ done t)
      × (is_too_many n t ≡ true)
      × (run ns r ≡ (if names after then hang else done (record t { locked = true })))
      × ((model : Bytes) → pick_server model (record t { locked = true }) ≡ hang)

  -- From a free mutex, notices of arrival, departure and load: if none of them announces a new
  -- server to a full table, all return, and the mutex is free. Otherwise the mutex stays held behind
  -- the first that does: any later notice with an identifier, and any choice of a server, waits for
  -- ever.
  pub run-IsStuck :
      (ns : List (ℕ × Notice)) (r : Router F.Double)
      → r.locked ≡ false
      → ((any_too_many ns r ≡ false)
          × (t : Router F.Double) × (run ns r ≡ done t)
          × (t.locked ≡ false))
        ⊎ ((any_too_many ns r ≡ true) × IsStuck ns r)
  run-IsStuck [] r free = inl (refl, r, refl, free)
  run-IsStuck (n ∷ ns) r free = elim (Bool-cases (is_too_many n r)) [
    | inl many ↦ inr (
      rw many refl,
      (
        [],
        n,
        ns,
        r,
        refl,
        refl,
        many,
        rw (too_many n r free many) (run-held ns r),
        λ model. unfold pick_server in refl,
      ),
    )
    | inr few ↦
        let (t, step, free') = Frees-IsDone (take_notice n r) (fits n r free few) in
        elim (run-IsStuck ns t free') [
          | inl (none_, u, all, free'') ↦ inl (rw (few, step) none_, u, rw step all, free'')
          | inr (some_, (before, m, after, u, split, up_to, many, all, held)) ↦ inr (
            rw (few, step) some_,
            (
              n ∷ before,
              m,
              after,
              u,
              ap (λ l. n ∷ l) split,
              rw step up_to,
              many,
              rw step all,
              held,
            ),
          )
        ]
  ]
