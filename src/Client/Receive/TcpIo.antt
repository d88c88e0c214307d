-- ===== src/Client/Receive/TcpIo.antt =====
-- `TCPClient::receive_tcp_io` reads the wire format: frames that were dealt out in turn, up to the
-- block that ends the stream.
use ossim_tcp_client.Prelude.{
  ℕ, ◌+◌, ◌^◌, ◌<◌, ◌≤◌, ◌≡◌, refl, List, ◌++◌, some, ℤ, pos, negsuc, to_int-lt, length, drop,
  arith, lt→ltb,
}
use ossim_tcp_client.Frames.{frame}
use ossim_tcp_client.Client.Os.{Os, RecvLaws}
use ossim_tcp_client.Client.Monad.{Sys, M, Returns}
use ossim_tcp_client.Client.Send.{terminate_block}
use ossim_tcp_client.Client.Send.Stream.{Broken}
use ossim_tcp_client.Client.Receive.{tcp_io_round}
use ossim_tcp_client.Client.Receive.Round.{round-data, round-terminate}
use ossim_tcp_client.Client.Receive.Next.{Next, NextPost}

module _ {W : Type 0} (inbox : W → ℕ → List ℕ) where
  -- How `receive_tcp_io` ends: with the number of bytes and the buffer `mem`, with `rest` still to come,
  -- or with -1 and a broken client.
  abbrev pub TcpIoPost : ℕ → List ℕ → (ℕ → List ℕ) → ℤ × List ℕ → Sys W → Type 0
  TcpIoPost total mem rest (pos n, m) s' =
      (n ≡ total) × (m ≡ mem) × ((u : ℕ) → inbox s'.world u ≡ rest u)
  TcpIoPost total mem rest (negsuc e, m) s' = (e ≡ 0) × Broken s'.client

module _ {W : Type 0} (os : Os W) (inbox : W → ℕ → List ℕ) (laws : RecvLaws os inbox) where
  pub terminate_round :
      (pdata block : List ℕ) (len off size : ℕ) (rest : ℕ → List ℕ)
      (next : List ℕ → List ℕ → ℕ → M W (ℤ × List ℕ)) (s : Sys W)
      → terminate_block size ≡ some block
      → off + length block ≤ len
      → len < 2 ^ 31
      → (r : ℤ × List ℕ) (s' : Sys W) → NextPost inbox s block rest r s'
      → Returns (tcp_io_round os next pdata len off r s') (TcpIoPost inbox off pdata rest)
  terminate_round pdata block len off size rest next s t o i (negsuc e, m) s' p =
      unfold tcp_io_round in p
  terminate_round pdata block len off size rest next s t o i (pos k, m) s' (p, q, d) =
      rw
        (
          q,
          round-terminate os next pdata block size len off k s' t (omega arith),
          to_int-lt off (lt→ltb _ _ (omega arith)),
        )
        (refl, refl, d.inboxes)

  pub data_round :
      (got room chunk tail : List ℕ) (len off : ℕ) (more : ℕ → List ℕ)
      (next : List ℕ → List ℕ → ℕ → M W (ℤ × List ℕ)) (s : Sys W) (total : ℕ) (mem : List ℕ)
      (rest : ℕ → List ℕ)
      → length got ≡ off
      → off + length (frame chunk tail) ≤ len
      → length chunk ≤ length room
      → len < 2 ^ 31
      → length chunk ≤ length (frame chunk tail)
      → ((s' : Sys W)
          → Next inbox s s' more
          → Returns
              (next
                (got ++ (chunk ++ drop (length chunk) room))
                (frame chunk tail)
                (off + length chunk)
                s')
              (TcpIoPost inbox total mem rest))
      → (r : ℤ × List ℕ) (s' : Sys W) → NextPost inbox s (frame chunk tail) more r s'
      → Returns (tcp_io_round os next (got ++ room) len off r s') (TcpIoPost inbox total mem rest)
  data_round got room chunk tail len off more next s total mem rest g o f i z k (negsuc e, m) s' p =
      unfold tcp_io_round in p
  data_round got room chunk tail len off more next s total mem rest g o f i z k (pos n, m) s'
        (p, q, d) =
      rw (q, round-data os next got room chunk tail len off n s' g (omega arith) f (omega arith))
        (k s' d)
