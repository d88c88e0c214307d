-- ===== src/App/Receive/Parts.antt =====
-- What the receivers write of the frames of some data, and of the block that ends a stream.
use ossim_tcp_client.Prelude.{
  ℕ, ◌+◌, ◌^◌, ◌<◌, ◌≡◌, refl, sym, subst, List, [], ◌∷◌, some, true, false, length, arith,
  append-nil,
}
use ossim_tcp_client.Bytes.Laws.{read_at?-all}
use ossim_tcp_client.Frames.{
  frame, FramesOf, length-frame, frame-word0, frame-word1, frame-body, joined,
}
use ossim_tcp_client.Client.Send.{terminate_block}
use ossim_tcp_client.Client.Send.TcpIo.{IsBlockSize}
use ossim_tcp_client.Client.Receive.{is_terminate_block}
use ossim_tcp_client.Client.Receive.Round.{terminate_block-words}
use ossim_tcp_client.Client.Receive.Frames.{length-terminate_block}
use ossim_tcp_client.App.Receive.{Target, ends_stream, bin_part, ds8_part}
use ossim_tcp_client.App.Receive.Blocks.{Parts, Ending}

pub ends_stream-frame : (chunk tail : List ℕ) → ends_stream (frame chunk tail) ≡ some false
unfolding ends_stream is_terminate_block
ends_stream-frame chunk tail = rw (ends_stream, frame-word1 chunk tail) refl

pub ends_stream-terminate_block :
    (n : ℕ) (block : List ℕ) → terminate_block n ≡ some block → ends_stream block ≡ some true
unfolding ends_stream is_terminate_block
ends_stream-terminate_block n block e =
    let (p, q, r) = terminate_block-words n block e in rw (ends_stream, q, r) refl

bin_part-frame :
    (chunk tail : List ℕ)
    → length chunk < 2 ^ 64
    → bin_part Target.created (frame chunk tail) ≡ some chunk
unfolding bin_part
bin_part-frame chunk tail h =
    rw (bin_part, frame-word1 chunk tail, frame-word0 chunk tail h, frame-body chunk tail) refl

bin_part-terminate_block :
    (n : ℕ) (block : List ℕ)
    → terminate_block n ≡ some block
    → bin_part Target.created block ≡ some []
unfolding bin_part
bin_part-terminate_block n block e =
    let (p, q, r) = terminate_block-words n block e in rw (bin_part, q) refl

-- Of frames `receiveToBin` writes the data, and `receiveToDs8` everything.
pub FramesOf-Parts :
    (room : ℕ) (bs : List ℕ) (fs : List (List ℕ))
    → FramesOf room bs fs
    → room < 2 ^ 64
    → Parts (bin_part Target.created) (room + 16) fs bs
      × Parts (ds8_part Target.created (room + 16)) (room + 16) fs (joined fs)
unfolding ds8_part
FramesOf-Parts room bs _ (FramesOf.last {f = f} tail e q) h =
    let size : length f ≡ room + 16 = rw q (omega (arith, length-frame bs tail)) in
    let goes : ends_stream f ≡ some false = rw q (ends_stream-frame bs tail) in
    (
      subst (Parts (bin_part Target.created) (room + 16) (f ∷ [])) (append-nil bs)
          (Parts.part_of size goes (rw q (bin_part-frame bs tail (omega arith))) Parts.no_parts),
      Parts.part_of size goes (read_at?-all f (room + 16) size) Parts.no_parts,
    )
FramesOf-Parts room bs _ (FramesOf.more {f = f} chunk left whole e p q fr) h =
    let size : length f ≡ room + 16 = rw q (omega (arith, length-frame chunk [])) in
    let goes : ends_stream f ≡ some false = rw q (ends_stream-frame chunk []) in
    let (bin, ds8) = FramesOf-Parts room left _ fr h in
    (
      subst (Parts (bin_part Target.created) (room + 16) _) (sym whole)
          (Parts.part_of size goes (rw q (bin_part-frame chunk [] (omega arith))) bin),
      Parts.part_of size goes (read_at?-all f (room + 16) size) ds8,
    )

pub bin_part-Ending :
    (n : ℕ) (block : List ℕ)
    → IsBlockSize n
    → terminate_block n ≡ some block
    → Ending (bin_part Target.created) n block []
bin_part-Ending n block size e = record {
  size = length-terminate_block n block size e;
  ends = ends_stream-terminate_block n block e;
  writes = bin_part-terminate_block n block e;
}

pub ds8_part-Ending :
    (n : ℕ) (block : List ℕ)
    → IsBlockSize n
    → terminate_block n ≡ some block
    → Ending (ds8_part Target.created n) n block block
unfolding ds8_part
ds8_part-Ending n block size e =
    let l = length-terminate_block n block size e in
    record {
      size = l;
      ends = ends_stream-terminate_block n block e;
      writes = read_at?-all block n l;
    }
