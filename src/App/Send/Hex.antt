-- ===== src/App/Send/Hex.antt =====
-- `sendHexFile` (src/tcpclientapp.cpp) on a file with a character that is not of a hex number: its loop
-- tests only for the end of the file, which is never met.
pub mod Words
pub mod Sent
use ossim_tcp_client.Prelude.{
  ℕ, zero, suc, ◌-◌, ◌/◌, ◌≡◌, refl, List, Option, none, some, Bool, true, false, ℤ, pos, negsuc,
  inl, inr, ◌⊎◌, arith, Bool-cases,
}
use ossim_tcp_client.Client.Os.{Os}
use ossim_tcp_client.Client.Monad.{Sys, M, Run, done, stuck, fault, ◌>>=◌, pure}
use ossim_tcp_client.Client.Send.{send, block_bytes}
use ossim_tcp_client.Convertors.Hex.{hex_block}
use ossim_tcp_client.App.Send.{HexStream, take_words, hex_send_loop}

module _ (extract : List ℕ → Option (ℕ × List ℕ)) (meets_end : List ℕ → Bool) where
  -- The stream gives no more words and is not at the end of its file.
  pub record Blocked (ifs : HexStream) : Type 0 where
    pub eof : ifs.eof ≡ false
    pub no_word : (ifs.failed ≡ true) ⊎ ((extract ifs.rest ≡ none) × (meets_end ifs.rest ≡ false))

  take_words-Blocked :
      (count : ℕ) (ifs : HexStream)
      → Blocked ifs
      → Blocked (take_words extract meets_end count ifs).1
  unfolding take_words
  take_words-Blocked zero ifs h = h
  take_words-Blocked (suc count) ifs h = elim (Bool-cases ifs.failed) [
    | inl failed ↦ rw (failed, take_words) (record { eof = h.eof; no_word = inl refl })
    | inr good ↦ elim h.no_word [
      | inl failed ↦ ground arith
      | inr (stops, inside) ↦
          rw (good, h.eof, take_words, stops, inside) (record { eof = refl; no_word = inl refl })
    ]
  ]

  -- A run that does not end with `true`
  abbrev pub NotAll : {W : Type 0} → Run W Bool → Type 0
  NotAll (done true s) = ⊥
  NotAll (done false s) = Unit {0}
  NotAll stuck = Unit {0}
  NotAll fault = Unit {0}

  module _ {W : Type 0} (os : Os W) where
    NotAll-bind :
        {A : Type 0} (m : M W A) (f : A → M W Bool) (s : Sys W)
        → ((a : A) (s' : Sys W) → NotAll (f a s'))
        → NotAll ((m >>= f) s)
    NotAll-bind m f s h = go (m s)
      where
        go : (r : Run W _) → NotAll (elim r [ done a s' ↦ f a s' | stuck ↦ stuck | fault ↦ fault ])
        go (done a s') = h a s'
        go stuck = tt
        go fault = tt

    after_hex_block :
        (fuel buf_size : ℕ) (ifs : HexStream)
        → ((s : Sys W) → NotAll (hex_send_loop extract meets_end os fuel ifs buf_size s))
        → (sent : ℤ) (s : Sys W)
        → let run : M W Bool = elim sent [
          | negsuc e ↦ pure false
          | pos n ↦ hex_send_loop extract meets_end os fuel ifs buf_size
        ] in
          NotAll (run s)
    after_hex_block fuel buf_size ifs h (negsuc e) s = tt
    after_hex_block fuel buf_size ifs h (pos n) s = h s

    -- When the next extraction fails without meeting the end of the file, the loop of `sendHexFile`
    -- never comes to `send_terminate`, on any system, from any state and with any fuel: it goes on
    -- sending blocks until an error stops it.
    pub hex_send_loop-Blocked :
        (fuel : ℕ) (ifs : HexStream) (buf_size : ℕ) (s : Sys W)
        → Blocked ifs
        → NotAll (hex_send_loop extract meets_end os fuel ifs buf_size s)
    unfolding hex_send_loop
    hex_send_loop-Blocked zero ifs buf_size s h = tt
    hex_send_loop-Blocked (suc fuel) ifs buf_size s h =
        let r = take_words extract meets_end (buf_size / 8 - 2) ifs in
        rw (h.eof, hex_send_loop)
          (NotAll-bind
            (send os fuel (some (block_bytes (hex_block r.0 (buf_size / 8 - 2) (buf_size - 16))))
              buf_size)
            _ s
            (after_hex_block fuel buf_size r.1 (λ s'.
              hex_send_loop-Blocked fuel r.1 buf_size s'
                (take_words-Blocked (buf_size / 8 - 2) ifs h))))
