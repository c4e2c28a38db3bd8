-- ===== src/Descriptors/Loop.antt =====
-- The loop of qdcadm as a whole.
use o2k.Prelude.{ℕ, ◌+◌, ◌^◌, ◌≤◌, ◌<◌, ◌≡◌, ℤ, List, length, arith}
use o2k.Outcome.{Returns, Returns-weaken, Returns-Ensures}
use o2k.Os.{Os, IsStream}
use o2k.AdminMsg.{Codec}
use o2k.Qdcadm.{Run, run_loop}
use o2k.Qdcadm.Termination.{IsQuiet, IsBounded, run_loop-Few}
use o2k.Descriptors.{TracksOpen, Open}
use o2k.Descriptors.Sessions.{run_loop-Open}

-- Whatever the server sends, and whichever calls of the system fail, as long as the calls of the system
-- move bytes, open and close as they are documented to, and the protobuf library makes no message of
-- 2 GB: with fuel above 2^31 + 4 and the number of signals that are to come, the loop of `main` makes its
-- `n` passes and comes to its end, without an access outside an array, and the descriptors that are open
-- then are those that were open before.
pub run_loop-Returns :
    {World : Type 0} (os : Os World) (stream : IsStream os) (tracks : TracksOpen os)
    (quiet : IsQuiet os stream) (codec : Codec) (bounded : IsBounded codec) (fds : List ℤ)
    (fuel : ℕ) (r : Run) (n : ℕ) (w : World)
    → 2 ^ 31 + 4 + stream.signals w < fuel
    → Open os tracks fds w
    → Returns
        (λ end.
          (length end.0 ≡ n) × (stream.signals end.1 ≤ stream.signals w) × Open os tracks fds end.1)
        (run_loop os codec fuel r n w)
run_loop-Returns os stream tracks quiet codec bounded fds fuel r n w enough opened =
    Returns-weaken
      (Returns-Ensures _ _ _
        (run_loop-Few os stream quiet (stream.signals w) codec bounded fuel enough r n w
          (omega arith))
        (run_loop-Open os tracks codec fds fuel r n w opened))
      λ end ((count, few), closed). (count, few, closed)
