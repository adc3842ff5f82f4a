-- ===== src/Tests/Router.antt =====
-- The router at concrete tables.
use yllm.Base.{
  ◌++◌, ◌⊎◌, ◌<◌, ◌≤◌, ◌+◌, ℕ, zero, suc, ◌%◌, ◌≡◌, refl, true, false, Option, none, some, List, [],
  ◌∷◌, arith,
}
use yllm.Base.Int.{ℤ, pos}
use yllm.Base.Outcome.{done, hang}
use yllm.Base.Scan.{strip_prefix, atoi, scan_word}
use yllm.Base.Text.{Bytes, codes, equal}
use yllm.Router.Forward.{Pause, answering, infer_loop, answer_line, frame_t_payload}
use yllm.Router.Pick.Least.{IsChoice, pick_server-IsChoice}
use yllm.Router.Pick.RoundRobin.{IsNth, turned, pick_server_round_robin}
use yllm.Router.Pick.{pick_server, router_model_known, count_serving, serves}
use yllm.Router.Registry.Notices.{Notice, add, del, update, run, any_too_many, IsStuck, run-IsStuck}
use yllm.Router.Registry.{modify, notice_id, find_server}
use yllm.Node.{Floats, ready}
use yllm.Router.Queue.{
  totals_from, queue_snapshot, reject_if_busy, waiting_in, reject_if_busy-waiting,
}
use yllm.Wire.Frame.{recv_line}
use yllm.Wire.Protocol.{proto_is_error}
use yllm.Router.Types.{RtServer, Router, new_server}

-- Numbers in place of `double`.
abbrev floats : Floats
floats = record { Double = ℕ; zero = 0; atof = λ s. 0 }

abbrev server : Bytes → ℤ → RtServer ℕ
server id n = record (new_server floats id) { model = codes "m"; state = ready; inflight = n }

abbrev router : List (RtServer ℕ) → Option Bytes → Router ℕ
router ss strategy = record {
  servers = ss;
  locked = false;
  quit = false;
  rr_counter = 0;
  strategy = strategy;
}

abbrev pair : List (RtServer ℕ)
pair = server (codes "s1") (pos 4) ∷ server (codes "s2") (pos 2) ∷ []

abbrev by_load : Router ℕ
by_load = router pair none

abbrev by_turns : Router ℕ
by_turns = router pair (some (codes "round-robin"))

pick_least : pick_server (codes "m") by_load ≡ done (by_load, some 1)
unfolding pick_server equal
pick_least = refl

pick_server-IsChoice_example :
    (i : Option ℕ) × (pick_server (codes "m") by_load ≡ done (by_load, i))
    × IsChoice (codes "m") by_load.servers i
pick_server-IsChoice_example = pick_server-IsChoice (codes "m") by_load refl refl

two_serving : count_serving (codes "m") pair ≡ 2
unfolding count_serving serves equal
two_serving = refl

pick_server_round_robin_example :
    (i : ℕ) × (pick_server (codes "m") by_turns ≡ done (turned (codes "m") by_turns, some i))
    × IsNth (codes "m") (1 % count_serving (codes "m") by_turns.servers) i by_turns.servers
    × (pick_server (codes "m") (turned (codes "m") by_turns) ≡ hang)
    × (router_model_known (codes "m") (turned (codes "m") by_turns) ≡ hang)
unfolding equal
pick_server_round_robin_example =
    pick_server_round_robin (codes "m") by_turns refl refl (omega (arith, two_serving))

named_s3 : notice_id (codes "s3 model=m") ≡ some (codes "s3")
unfolding notice_id
named_s3 = refl

word_s2 : scan_word 127 (codes "s2") ≡ some (codes "s2", [])
unfolding scan_word
word_s2 = refl

find_s2 : find_server (codes "s2") by_load ≡ some 1
unfolding find_server equal
find_s2 = refl

abbrev copies : ℕ → List (RtServer ℕ)
copies zero = []
copies (suc k) = server (codes "s") (pos 0) ∷ copies k

abbrev full : Router ℕ
full = router (copies 64) none

find_none : find_server (codes "s3") full ≡ none
unfolding find_server equal
find_none = refl

abbrev notices : List (ℕ × Notice)
notices =
    (7, update (codes "s inflight=2")) ∷ (8, add (codes "s3 model=m")) ∷ (9, del (codes "s")) ∷ []

run-IsStuck_example :
    ((any_too_many floats notices full ≡ false)
      × (t : Router ℕ) × (run floats notices full ≡ done t)
      × (t.locked ≡ false))
    ⊎ ((any_too_many floats notices full ≡ true) × IsStuck floats notices full)
run-IsStuck_example = run-IsStuck floats notices full refl

-- One token, "hi", and the end.
abbrev answer : Bytes
answer = codes "T 2" ++ (b'\n' ∷ (codes "hiDONE 1" ++ b'\n' ∷ []))

receive : infer_loop 30 64 answer ≡ done (record { rc = pos 0; err = []; tokens = codes "hi" ∷ [] })
unfolding infer_loop recv_line answer_line frame_t_payload strip_prefix atoi proto_is_error
receive = refl

-- While the server answers, a notice of load overwrites its count.
abbrev meddle : Pause → Router ℕ → Router ℕ
meddle answering r = record r { servers = modify 0 (λ s. record s { inflight = pos 0 }) r.servers }
meddle _ r = r

abbrev cap_two : ℕ
cap_two = 2

-- Three requests wait at the second server.
abbrev waiting_three : Router ℕ
waiting_three =
    router
      (server (codes "s1") (pos 4) ∷ record (server (codes "s2") (pos 2)) { waiting = pos 3 } ∷ [])
      none

busy_three : reject_if_busy 2 waiting_three ≡ done (waiting_three, some 3)
unfolding reject_if_busy queue_snapshot totals_from
busy_three = refl

reject_if_busy-waiting_example :
    ((reject_if_busy 2 waiting_three ≡ done (waiting_three, none))
      × ((cap_two ≡ 0)
          ⊎ ((waiting_in waiting_three.servers).0 < 2 + (waiting_in waiting_three.servers).1)))
    ⊎ ((secs : ℕ) × (reject_if_busy 2 waiting_three ≡ done (waiting_three, some secs))
        × (0 < cap_two)
        × (2 + (waiting_in waiting_three.servers).1 ≤ (waiting_in waiting_three.servers).0)
        × (2 ≤ secs)
        × (secs ≤ 30))
reject_if_busy-waiting_example = reject_if_busy-waiting 2 waiting_three refl
