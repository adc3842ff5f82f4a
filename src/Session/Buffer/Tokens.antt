-- ===== src/Session/Buffer/Tokens.antt =====
-- What the token operations do to the sequence that an entry stands for.
use yllm.Base.{
  ℕ, zero, suc, ◌+◌, ◌*◌, ◌%◌, ◌^◌, ◌≤◌, ◌<◌, ◌≡◌, refl, sym, ◌∙◌, ap, subst, ◌⊎◌, inl, inr, true,
  false, Option, none, some, List, [], ◌∷◌, ◌++◌, arith, leb, ltb, Bool-cases, Option-cases, length,
  take, drop, length-append, length-take, length-drop, take-append_add, take-append, take-take,
}
use yllm.Base.Outcome.{done, hang}
use yllm.Session.Buffer.Growth.{grow_cap_ends, grow_cap_hangs}
use yllm.Session.Buffer.{
  sess_truncate, start_cap, grow_cap, grow_fuel, sess_grow, copy_to, sess_commit, sess_append,
}
use yllm.Session.Types.{SessVal, Allocator, IsBuffered, words, view}

-- `sess_truncate` cuts the sequence to its first `n` tokens.
pub view-sess_truncate :
    (now n : ℕ) (e : SessVal)
    → IsBuffered e
    → (view (sess_truncate now n e) ≡ take n (view e)) × IsBuffered (sess_truncate now n e)
unfolding sess_truncate
view-sess_truncate now n e ok = elim (Bool-cases (ltb n e.n)) [
  | inl shorter ↦ rw shorter (
    sym (take-take n e.n (words e.tokens) (ground arith)),
    record {
      sized = ok.sized;
      fits = ground (arith, ok.fits);
      word_sized = ok.word_sized;
      key_fits = ok.key_fits;
    },
  )
  | inr longer ↦ rw longer (
    whole n (view e) (ground (arith, length-take e.n (words e.tokens))),
    record { sized = ok.sized; fits = ok.fits; word_sized = ok.word_sized; key_fits = ok.key_fits },
  )
]
  where
    whole : (k : ℕ) (xs : List ℕ) → length xs ≤ k → xs ≡ take k xs
    whole zero [] h = refl
    whole zero (x ∷ xs) h = absurd (omega arith)
    whole (suc k) [] h = refl
    whole (suc k) (x ∷ xs) h = ap (◌∷◌ x) (whole k xs (omega arith))

-- `g` is `e` with room for `need` tokens.
pub record IsGrown (e : SessVal) (need : ℕ) (g : SessVal) : Type 0 where
  pub buffered : IsBuffered g
  pub room : need ≤ g.cap
  pub same_n : g.n ≡ e.n
  pub same_view : view g ≡ view e
  pub same_key : g.key ≡ e.key
  pub same_use : g.last_use ≡ e.last_use

-- There is no room for `need` tokens, and the allocator refuses a buffer that would have it.
abbrev pub IsRefused : Allocator → ℕ → SessVal → Type 0
IsRefused mem need e =
    (e.cap < need) × (k : ℕ) × (need ≤ k) × (k < 2 ^ 32) × (mem.realloc (words e.tokens) k ≡ none)

-- Up to 2 ^ 31 tokens `sess_grow` returns, with room for all, or with the entry as it was where the
-- allocator refuses.
pub sess_grow-IsGrown :
    (mem : Allocator) (need : ℕ) (e : SessVal)
    → IsBuffered e
    → need ≤ 2 ^ 31
    → (IsRefused mem need e × (sess_grow mem need e ≡ done (e, false)))
      ⊎ ((g : SessVal) × (sess_grow mem need e ≡ done (g, true)) × IsGrown e need g)
unfolding sess_grow
sess_grow-IsGrown mem need e ok small = elim (Bool-cases (leb need e.cap)) [
  | inl enough ↦ inr (
    e,
    rw enough,
    record {
      buffered = ok;
      room = ground arith;
      same_n = refl;
      same_view = refl;
      same_key = refl;
      same_use = refl;
    },
  )
  | inr short ↦
      go
        (grow_cap_ends grow_fuel 31 start need (omega arith) (omega (arith, start-pos))
          (ground (arith, ok.word_sized)) small)
        short
]
  where
    start : ℕ
    start = start_cap e.cap

    start-pos : 0 < start
    start-pos = ground arith

    go :
        (r : ℕ) × (grow_cap grow_fuel start need ≡ done r) × (need ≤ r) × (start ≤ r) × (r < 2 ^ 32)
        → leb need e.cap ≡ false
        → (IsRefused mem need e × (sess_grow mem need e ≡ done (e, false)))
          ⊎ ((g : SessVal) × (sess_grow mem need e ≡ done (g, true)) × IsGrown e need g)
    go (r, ends, enough, above, fits) short = elim (Option-cases (mem.realloc (words e.tokens) r)) [
      | inl oom ↦ inl ((ground arith, r, enough, fits, oom), rw (short, ends, oom))
      | inr (b, got) ↦
          let bigger : length (words e.tokens) ≤ r = ground (arith, ok.sized) in
          inr (
            record e { tokens = some b; cap = r },
            rw (short, ends, got),
            record {
              buffered = record {
                sized = mem.realloc_size (words e.tokens) b r got;
                fits = ground (arith, ok.fits);
                word_sized = fits;
                key_fits = ok.key_fits;
              };
              room = enough;
              same_n = refl;
              same_view = kept b r (mem.realloc_keeps (words e.tokens) b r got bigger);
              same_key = refl;
              same_use = refl;
            },
          )
    ]
      where
        kept :
            (b : List ℕ) (k : ℕ)
            → take (length (words e.tokens)) b ≡ words e.tokens
            → take e.n b ≡ view e
        kept b k same =
            sym (take-take e.n (length (words e.tokens)) b (omega (arith, ok.fits, ok.sized)))
            ∙ ap (take e.n) same

copy_to-view :
    (b : List ℕ) (i : ℕ) (xs : List ℕ)
    → i + length xs ≤ length b
    → take (i + length xs) (take i b ++ (xs ++ drop (i + length xs) b)) ≡ take i b ++ xs
copy_to-view b i xs h =
    let front : length (take i b) ≡ i = omega (arith, length-take i b) in
    subst (λ k. take (k + length xs) (take i b ++ (xs ++ drop (i + length xs) b)) ≡ take i b ++ xs)
      front
      (take-append_add (take i b) (xs ++ drop (i + length xs) b) (length xs)
        ∙ ap (λ t. take i b ++ t) (take-append xs (drop (i + length xs) b)))

length-copy_to :
    (b : List ℕ) (i : ℕ) (xs : List ℕ)
    → i + length xs ≤ length b
    → length (take i b ++ (xs ++ drop (i + length xs) b)) ≡ length b
length-copy_to b i xs h = omega (
  arith,
  length-append (take i b) (xs ++ drop (i + length xs) b),
  length-append xs (drop (i + length xs) b),
  length-take i b,
  length-drop (i + length xs) b,
)

-- What a commit of `tok` at the time `now` makes of the entry.
pub record IsCommitted (now : ℕ) (tok : List ℕ) (e g : SessVal) : Type 0 where
  pub buffered : IsBuffered g
  pub appended : view g ≡ view e ++ tok
  pub same_key : g.key ≡ e.key
  pub stamped : g.last_use ≡ now

-- A copy within the buffer goes through, and the tokens stand behind the first `i`.
copy_to-words :
    (t : Option (List ℕ)) (i : ℕ) (xs : List ℕ)
    → i + length xs ≤ length (words t)
    → (b : Option (List ℕ)) × (copy_to t i xs ≡ done b)
      × (length (words b) ≡ length (words t))
      × (take (i + length xs) (words b) ≡ take i (words t) ++ xs)
unfolding copy_to
copy_to-words none i [] h =
    let i_zero : i ≡ 0 = omega arith in
    let sum_zero : i + 0 ≡ 0 = omega arith in (none, refl, refl, rw sum_zero (rw i_zero))
copy_to-words none i (x ∷ xs) h = absurd (omega arith)
copy_to-words (some b) i xs h = (
  some (take i b ++ (xs ++ drop (i + length xs) b)),
  ground arith,
  length-copy_to b i xs h,
  copy_to-view b i xs h,
)

-- Up to 2 ^ 31 tokens in all, a commit neither hangs nor writes outside of the buffer: it appends
-- the tokens, or, where they do not fit and the allocator refuses the buffer for them, fails and
-- leaves the entry as it was.
pub sess_commit-IsCommitted :
    (mem : Allocator) (now : ℕ) (tok : List ℕ) (e : SessVal)
    → IsBuffered e
    → e.n + length tok ≤ 2 ^ 31
    → (IsRefused mem (e.n + length tok) e × (sess_commit mem now tok e ≡ done (e, false)))
      ⊎ ((g : SessVal) × (sess_commit mem now tok e ≡ done (g, true)) × IsCommitted now tok e g)
unfolding sess_commit
sess_commit-IsCommitted mem now tok e ok small =
    elim (sess_grow-IsGrown mem (e.n + length tok) e ok small) [
      | inl (refused, oom) ↦ inl (refused, rw (no_wrap, oom))
      | inr (g, grew, is) ↦
          let size : g.n + length tok ≤ length (words g.tokens) =
            omega (arith, is.room, is.same_n, is.buffered.sized) in
          let wrapped : (g.n + length tok) % 2 ^ 32 ≡ g.n + length tok = omega (arith, is.same_n) in
          let (b, copied, sized, holds) = copy_to-words g.tokens g.n tok size in
          inr (
            record g { tokens = b; n = g.n + length tok; last_use = now },
            rw (no_wrap, grew, copied, wrapped),
            record {
              buffered = record {
                sized = sized ∙ is.buffered.sized;
                fits = omega (arith, is.room, is.same_n);
                word_sized = is.buffered.word_sized;
                key_fits = is.buffered.key_fits;
              };
              appended = holds ∙ ap (λ v. v ++ tok) is.same_view;
              same_key = is.same_key;
              stamped = refl;
            },
          )
    ]
  where
    no_wrap : (e.n + length tok) % 2 ^ 32 ≡ e.n + length tok
    no_wrap = omega arith

-- `sess_append` is a commit of one token.
pub sess_append-sess_commit :
    (mem : Allocator) (now tok : ℕ) (e : SessVal)
    → sess_append mem now tok e ≡ sess_commit mem now (tok ∷ []) e
unfolding sess_append sess_commit
sess_append-sess_commit mem now tok e = refl

pub sess_grow_hangs :
    (mem : Allocator) (need : ℕ) (e : SessVal) (j : ℕ)
    → start_cap e.cap * 2 ^ j ≡ 2 ^ 31
    → e.cap ≤ 2 ^ 31
    → 2 ^ 31 < need
    → sess_grow mem need e ≡ hang
unfolding sess_grow
sess_grow_hangs mem need e j pow small big =
    ground (arith, grow_cap_hangs grow_fuel j (start_cap e.cap) need pow big)

-- From a buffer of 2 ^ k words, or from none, a commit that brings the tokens above 2 ^ 31 never
-- returns: the capacity wraps around to 0 and is doubled for ever.
pub sess_commit_hangs :
    (mem : Allocator) (now : ℕ) (tok : List ℕ) (e : SessVal) (j : ℕ)
    → start_cap e.cap * 2 ^ j ≡ 2 ^ 31
    → e.cap ≤ 2 ^ 31
    → 2 ^ 31 < e.n + length tok
    → e.n + length tok < 2 ^ 32
    → sess_commit mem now tok e ≡ hang
unfolding sess_commit
sess_commit_hangs mem now tok e j pow small big fits =
    let no_wrap : (e.n + length tok) % 2 ^ 32 ≡ e.n + length tok = omega arith in
    rw (no_wrap, sess_grow_hangs mem (e.n + length tok) e j pow small big)
