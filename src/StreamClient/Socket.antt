-- ===== src/StreamClient/Socket.antt =====
-- The socket of an `ossimTcpStreamClient` (src/ossimTcpStreamClient.cpp) between its calls.
use native.Mathlib.Omega.{arith}
use ossim_tcp_client.Prelude.{
  ℕ, ◌≡◌, refl, List, [], ◌∷◌, Option, none, some, Bool, true, false, ℤ, negsuc, is_neg, inl, inr,
  ◌⊎◌, Bool-cases, Option-cases, ap,
}
use ossim_tcp_client.StreamClient.{
  StreamClient, Strings, Net, disconnect, open_socket, connect_to, connect_to_server, host_and_port,
  execute, do_metadata, stream_buffer,
}

module _ {W A : Type 0} (net : Net W A) where
  -- A walk finds a socket together with its entry, or neither.
  FoundPost : ℤ × Option A × W → Type 0
  FoundPost r =
      ((is_neg r.0 ≡ true) × (r.1 ≡ none)) ⊎ ((is_neg r.0 ≡ false) × ((a : A) × (r.1 ≡ some a)))

  open_socket-FoundPost :
      (infos : List A) (sock : ℤ) (w : W)
      → is_neg sock ≡ true
      → FoundPost (open_socket net infos sock w)
  unfolding open_socket FoundPost
  open_socket-FoundPost [] sock w h = inl (h, refl)
  open_socket-FoundPost (info ∷ infos) sock w h = elim (Bool-cases (is_neg (net.socket info w).0)) [
    | inl none_here ↦
        rw none_here
          (open_socket-FoundPost infos (net.socket info w).0 (net.socket info w).1 none_here)
    | inr here ↦ rw here (inr (here, (info, refl)))
  ]

  -- How connecting ends: with a socket on which `::connect` has succeeded as the last call, or with none.
  abbrev pub ConnectedPost : StreamClient → W → Type 0
  ConnectedPost c w' =
      (is_neg c.svrsockfd ≡ true)
      ⊎ ((w : W) × (info : A) × (net.connect c.svrsockfd info w ≡ (true, w')))

  disconnect-none : (c : StreamClient) (w : W) → is_neg (disconnect net c w).1.svrsockfd ≡ true
  unfolding disconnect
  disconnect-none c w = ground arith

  connect_to-ConnectedPost :
      (c : StreamClient) (infos : List A) (w : W)
      → ConnectedPost (connect_to net c infos w).0 (connect_to net c infos w).1
  unfolding connect_to FoundPost
  connect_to-ConnectedPost c infos w =
      let r = open_socket net infos (negsuc 0) w in
      elim (open_socket-FoundPost infos (negsuc 0) w refl) [
        | inl (neg, missing) ↦ rw (missing, connect_to) (inl neg)
        | inr (good, (info, found)) ↦ elim (Bool-cases (net.connect r.0 info r.2).0) [
          | inl accepted ↦
              rw (found, connect_to, accepted)
                (inr (r.2, info, ap (λ b. (b, (net.connect r.0 info r.2).1)) accepted))
          | inr refused ↦ rw (found, connect_to, refused) (inl (disconnect-none _ _))
        ]
      ]

  -- `connectToServer` answers the socket that the object then has, whatever the object had before, and
  -- it is negative unless `::connect` has succeeded on it as the last call of the system.
  pub connect_to_server-ConnectedPost :
      (str : Strings) (hostname : List ℕ) (portname : Option (List ℕ)) (c : StreamClient) (w : W)
      → ((connect_to_server net str hostname portname c w).0
          ≡ (connect_to_server net str hostname portname c w).1.svrsockfd)
        × ConnectedPost
            (connect_to_server net str hostname portname c w).1
            (connect_to_server net str hostname portname c w).2
  unfolding connect_to_server
  connect_to_server-ConnectedPost str hostname portname c w =
      let p = host_and_port str hostname portname in
      elim (Option-cases (net.getaddrinfo p.0 p.1 w).0) [
        | inl failed ↦ (refl, rw (failed, connect_to_server) (inl refl))
        | inr (infos, found) ↦ (
          refl,
          rw (found, connect_to_server)
              (connect_to-ConnectedPost (record c { svrsockfd = negsuc 0 }) infos
                (net.getaddrinfo p.0 p.1 w).1),
        )
      ]

-- `execute` ends and answers false for every object, with an image or without one, whatever tiles the image
-- has.
pub execute-false : (fuel : ℕ) (tile : Bool) (c : StreamClient) → execute fuel tile c ≡ some false
unfolding execute do_metadata stream_buffer
execute-false fuel tile c = elim (Bool-cases c.handler) [
  | inl image ↦ rw (image, execute) refl
  | inr none_there ↦ rw (none_there, execute) refl
]
