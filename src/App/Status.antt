-- ===== src/App/Status.antt =====
-- `status_out` (src/tcpclientapp.cpp) and `statusOut` (app/client-app/main.cpp), which wait until the
-- threads of a transfer are ready. What they print in each round is left out.
use ossim_tcp_client.Prelude.{ℕ, zero, suc, ◌+◌, Bool, true, false, ◌&&◌, ℤ}
use ossim_tcp_client.Client.Os.{Os}
use ossim_tcp_client.Client.Monad.{M, stuck, pure, ◌>>=◌}
use ossim_tcp_client.Client.Base.{get_error}

-- `ready` tells of a round and of the number of a future whether the wait for it has ended with it ready.
module _ (ready : ℕ → ℕ → Bool) where
  -- A round over the futures below `count`: all are waited for.
  unfoldable pub wait_all : ℕ → ℕ → Bool
  wait_all round zero = true
  wait_all round (suc count) = wait_all round count && ready round count

  module _ {W : Type 0} (os : Os W) where
    -- `for (; !allReady;)`, from a round on; `statusOut` is this loop.
    unfoldable pub wait_loop : ℕ → ℕ → ℕ → M W (Unit {0})
    unfolding wait_all
    wait_loop zero round count = λ s. stuck
    wait_loop (suc fuel) round count = elim (wait_all round count) [
      | true ↦ pure tt
      | false ↦ wait_loop fuel (round + 1) count
    ]

    -- `status_out`
    unfoldable pub status_out : ℕ → ℕ → M W ℤ
    unfolding wait_loop
    status_out fuel count = wait_loop fuel 0 count >>= λ _. get_error os
