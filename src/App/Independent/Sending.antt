-- ===== src/App/Independent/Sending.antt =====
-- The senders of src/tcpclientapp.cpp, behind `connect`, neither read nor change
-- `sockfd_rcv_`, its turn and its counters.
use ossim_tcp_client.Prelude.{
  ℕ, zero, suc, ◌-◌, ◌/◌, refl, List, Option, some, Bool, true, false, ℤ, pos, negsuc, ltb, ◌==◌,
  if◌then◌else◌, length, drop, take, is_neg,
}
use ossim_tcp_client.Client.Os.{Os}
use ossim_tcp_client.Client.Monad.{M, pure}
use ossim_tcp_client.Client.Commutes.{
  Commutes, Commutes-bind, Commutes-gets, Commutes-in_bounds, Commutes-pure, Commutes-if,
  Commutes-elim,
}
use ossim_tcp_client.Client.Send.{Block, block_bytes, new_block}
use ossim_tcp_client.Client.Send.Independent.{
  ReceivingPart, with_receiving, send-Commutes, send_terminate-Commutes, blocks_loop-Commutes,
}
use ossim_tcp_client.Convertors.Hex.{hex_block}
use ossim_tcp_client.App.Send.{
  HexStream, bin_block, after_bin_block, bin_send_loop, send_bin, send_data, ds8_send_loop,
  take_words, hex_send_loop, send_hex,
}

module _ {W : Type 0} (os : Os W) (p : ReceivingPart) where
  after_bin_block-Commutes :
      (left : List ℕ) (next : M W Bool) (r : ℤ)
      → Commutes (with_receiving p) next
      → Commutes (with_receiving p) (after_bin_block os left next r)
  unfolding after_bin_block
  after_bin_block-Commutes left next (negsuc e) h = Commutes-pure false
  after_bin_block-Commutes left next (pos n) h =
      Commutes-elim (ltb 0 (length left)) h (Commutes-pure true)

  bin_send_loop-Commutes :
      (fuel : ℕ) (rest : List ℕ) (buf_size : ℕ) (block : Block)
      → Commutes (with_receiving p) (bin_send_loop os fuel rest buf_size block)
  unfolding bin_send_loop
  bin_send_loop-Commutes zero rest buf_size block = record { runs = λ s. refl }
  bin_send_loop-Commutes (suc fuel) rest buf_size block =
      let last = ltb (length rest) (buf_size - 16) in
      let data_size = if last then length rest else buf_size - 16 in
      let chunk = take data_size rest in
      Commutes-bind (Commutes-in_bounds (bin_block last chunk buf_size block)) (λ block'.
        Commutes-elim (length chunk == 0) (Commutes-pure true) (
          Commutes-bind (send-Commutes os p fuel (some (block_bytes block')) buf_size) (λ r.
            after_bin_block-Commutes (drop data_size rest) _ r
              (bin_send_loop-Commutes fuel (drop data_size rest) buf_size block'))))

  pub send_bin-Commutes :
      (fuel : ℕ) (file : List ℕ) → Commutes (with_receiving p) (send_bin os fuel file)
  unfolding send_bin
  send_bin-Commutes fuel file =
      Commutes-bind (Commutes-gets (λ c. c.connection_info.tcp_buf_size) (λ c. refl)) (λ buf_size.
        Commutes-bind (Commutes-in_bounds (new_block buf_size)) (λ block.
          Commutes-bind (bin_send_loop-Commutes fuel file buf_size _) (λ all.
            Commutes-if all
              (Commutes-bind (send_terminate-Commutes os p fuel) (λ bytes. Commutes-pure true))
              (Commutes-pure false))))

  pub send_data-Commutes :
      (fuel : ℕ) (data_in : List ℕ) → Commutes (with_receiving p) (send_data os fuel data_in)
  unfolding send_data
  send_data-Commutes fuel data_in =
      Commutes-bind (Commutes-gets (λ c. c.connection_info.tcp_buf_size) (λ c. refl)) (λ buf_size.
        Commutes-bind (Commutes-in_bounds (new_block buf_size)) (λ block.
          Commutes-bind (blocks_loop-Commutes os p fuel _ _ buf_size _ _ 0 _) (λ sent.
            Commutes-if (is_neg sent) (Commutes-pure false)
              (Commutes-bind (send_terminate-Commutes os p fuel) (λ bytes. Commutes-pure true)))))

  pub ds8_send_loop-Commutes :
      (fuel count : ℕ) (blocks : List ℕ) (buf_size : ℕ)
      → Commutes (with_receiving p) (ds8_send_loop os fuel count blocks buf_size)
  unfolding ds8_send_loop
  ds8_send_loop-Commutes fuel zero blocks buf_size = Commutes-pure tt
  ds8_send_loop-Commutes fuel (suc count) blocks buf_size =
      Commutes-bind (send-Commutes os p fuel (some (take buf_size blocks)) buf_size)
        (after_ds8 (ds8_send_loop-Commutes fuel count (drop buf_size blocks) buf_size))
    where
      after_ds8 :
          {next : M W (Unit {0})}
          → Commutes (with_receiving p) next
          → (r : ℤ)
          → Commutes
              (with_receiving p)
              {A = Unit {0}}
              (elim r [ negsuc e ↦ pure tt | pos n ↦ next ])
      after_ds8 h (negsuc e) = Commutes-pure tt
      after_ds8 h (pos n) = h

module _ (extract : List ℕ → Option (ℕ × List ℕ)) (meets_end : List ℕ → Bool) {W : Type 0}
    (os : Os W) (p : ReceivingPart) where
  after_words :
      {next : M W Bool}
      → Commutes (with_receiving p) next
      → (r : ℤ)
      → Commutes (with_receiving p) {A = Bool} (elim r [ negsuc e ↦ pure false | pos n ↦ next ])
  after_words h (negsuc e) = Commutes-pure false
  after_words h (pos n) = h

  hex_send_loop-Commutes :
      (fuel : ℕ) (ifs : HexStream) (buf_size : ℕ)
      → Commutes (with_receiving p) (hex_send_loop extract meets_end os fuel ifs buf_size)
  unfolding hex_send_loop
  hex_send_loop-Commutes zero ifs buf_size = record { runs = λ s. refl }
  hex_send_loop-Commutes (suc fuel) ifs buf_size =
      let r = take_words extract meets_end (buf_size / 8 - 2) ifs in
      Commutes-elim ifs.eof (Commutes-pure true) (
        Commutes-bind
          (send-Commutes os p fuel
            (some (block_bytes (hex_block r.0 (buf_size / 8 - 2) (buf_size - 16)))) buf_size)
          (after_words (hex_send_loop-Commutes fuel r.1 buf_size)))

  pub send_hex-Commutes :
      (fuel : ℕ) (file : List ℕ)
      → Commutes (with_receiving p) (send_hex extract meets_end os fuel file)
  unfolding send_hex
  send_hex-Commutes fuel file =
      Commutes-bind (Commutes-gets (λ c. c.connection_info.tcp_buf_size) (λ c. refl)) (λ buf_size.
        Commutes-bind (Commutes-in_bounds (new_block buf_size)) (λ block.
          Commutes-bind (hex_send_loop-Commutes fuel _ buf_size) (λ all.
            Commutes-if all
              (Commutes-bind (send_terminate-Commutes os p fuel) (λ bytes. Commutes-pure _))
              (Commutes-pure false))))
