-- ===== src/Tests/Wire.antt =====
-- Frames and lines at concrete bytes.
use yllm.Base.{◌≡◌, refl, some, ◌++◌, arith}
use yllm.Base.Scan.{strip_prefix}
use yllm.Base.Text.{codes}
use yllm.Wire.Frame.RoundTrip.{IsCommand, IsArguments, frame_recv-frame_send}
use yllm.Wire.Frame.{Frame, frame, frame_send, frame_recv}
use yllm.Wire.Protocol.{proto_get, value_at}

abbrev hello : Frame
hello = record { cmd = codes "HELLO"; args = codes "model=m leader=h:1" }

hello-IsCommand : IsCommand hello.cmd
hello-IsCommand = record {
  bytes = omega arith;
  one_word = (refl, (refl, (refl, (refl, (refl, tt)))));
  fits = omega arith;
}

hello-IsArguments : IsArguments hello.args
hello-IsArguments = record { bytes = omega arith; starts = refl; fits = omega arith }

frame_recv-frame_send_example :
    frame_recv (frame_send hello.cmd hello.args ++ codes "NEXT") ≡ (frame hello, codes "NEXT")
frame_recv-frame_send_example =
    frame_recv-frame_send hello.cmd hello.args (codes "NEXT") hello-IsCommand hello-IsArguments

get_leader : proto_get hello.args (codes "leader") ≡ some (codes "h:1")
unfolding proto_get value_at strip_prefix
get_leader = refl
