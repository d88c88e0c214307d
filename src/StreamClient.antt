-- ===== src/StreamClient.antt =====
-- class ossimTcpStreamClient (src/ossimTcpStreamClient.h, src/ossimTcpStreamClient.cpp). The strings
-- and images of the ossim library and the calls of the system are parameters; a string is the list of
-- its characters, and what is printed is left out.
pub mod Socket
use ossim_tcp_client.Prelude.{
  ℕ, zero, suc, List, [], ◌∷◌, ◌++◌, Option, none, some, Bool, true, false, ◌&&◌, ℤ, pos, negsuc,
  is_neg, if◌then◌else◌, ◌==◌, length,
}

-- The fields; of the image handler only whether there is one
pub record StreamClient : Type 0 where
  pub svrsockfd : ℤ
  pub handler : Bool

-- `ossimTcpStreamClient::ossimTcpStreamClient`
abbrev pub new_stream_client : StreamClient
new_stream_client = record { svrsockfd = negsuc 0; handler = false }

-- `ossimString`: `contains`, `before` and `after`
pub record Strings : Type 0 where
  pub contains : List ℕ → List ℕ → Bool
  pub before : List ℕ → List ℕ → List ℕ
  pub after : List ℕ → List ℕ → List ℕ

-- The system. `A` is the type of the entries that `getaddrinfo` gives.
pub record Net (W A : Type 0) : Type 0 where
  -- `::close`: whether the result is not negative
  pub close : ℤ → W → Bool × W
  -- `none` is a failure.
  pub getaddrinfo : List ℕ → List ℕ → W → Option (List A) × W
  pub socket : A → W → ℤ × W
  -- `::connect`: whether the result is not negative
  pub connect : ℤ → A → W → Bool × W
  -- `ossimImageHandlerRegistry::open`: whether there is a handler
  pub open_image : List ℕ → W → Bool × W

-- Host and port of the arguments; a port is `none` where the pointer is null.
unfoldable pub host_and_port : Strings → List ℕ → Option (List ℕ) → List ℕ × List ℕ
host_and_port str hostname portname =
    let colon : List ℕ = b':' ∷ [] in
    let slash : List ℕ = b'/' ∷ [] in
    let p : List ℕ × List ℕ = elim portname [
      | some port ↦ (hostname, port)
      | none ↦
          if str.contains hostname colon
          then (str.before hostname colon, str.after hostname colon)
          else (hostname, [])
    ] in
    if length p.1 == 0 then (str.before p.0 slash, slash ++ str.after p.0 slash) else p

module _ {W A : Type 0} (net : Net W A) where
  -- `ossimTcpStreamClient::disconnect`
  unfoldable pub disconnect : StreamClient → W → Bool × StreamClient × W
  disconnect c w =
      if is_neg c.svrsockfd
      then (true, c, w)
      else let r = net.close c.svrsockfd w in (r.0, record c { svrsockfd = negsuc 0 }, r.1)

  -- The walk along the list of addresses: the last socket, and its entry unless the list has ended
  unfoldable pub open_socket : List A → ℤ → W → ℤ × Option A × W
  open_socket [] sock w = (sock, none, w)
  open_socket (info ∷ infos) sock w =
      let r = net.socket info w in
      let later = open_socket infos r.0 r.1 in if is_neg r.0 then later else (r.0, some info, r.1)

  -- `connectToServer` behind `getaddrinfo`
  unfoldable pub connect_to : StreamClient → List A → W → StreamClient × W
  unfolding disconnect open_socket
  connect_to c infos w =
      let r = open_socket infos (negsuc 0) w in
      let c' : StreamClient = record c { svrsockfd = r.0 } in
      elim r.1 [
        | none ↦ (c', r.2)
        | some info ↦
            let answer = net.connect r.0 info r.2 in
            if answer.0 then (c', answer.1) else let d = disconnect c' answer.1 in (d.1, d.2)
      ]

  -- `ossimTcpStreamClient::connectToServer`: its result with the object and the system. The socket that
  -- the object had before is not closed.
  unfoldable pub connect_to_server :
      Strings → List ℕ → Option (List ℕ) → StreamClient → W → ℤ × StreamClient × W
  unfolding connect_to host_and_port
  connect_to_server str hostname portname c w =
      let c₀ : StreamClient = record c { svrsockfd = negsuc 0 } in
      let p = host_and_port str hostname portname in
      let found = net.getaddrinfo p.0 p.1 w in
      let end : StreamClient × W = elim found.0 [
        | none ↦ (c₀, found.1)
        | some infos ↦ connect_to c₀ infos found.1
      ] in
      (end.0.svrsockfd, end.0, end.1)

  -- `ossimTcpStreamClient::open`: with a handler it ends without a value, `none`.
  unfoldable pub open_image_file : List ℕ → StreamClient → W → Option Bool × StreamClient × W
  open_image_file path c w =
      let r = net.open_image path w in
      (if r.0 then none else some false, record c { handler = r.0 }, r.1)

-- `streamBuffer`, and the steps of `execute` that end with it
unfoldable pub stream_buffer : ℕ → Bool
stream_buffer num_words = false

unfoldable pub do_metadata : Bool
unfolding stream_buffer
do_metadata = stream_buffer 3

unfoldable pub do_rpc_model_params : Bool
unfolding stream_buffer
do_rpc_model_params = stream_buffer 100

unfoldable pub do_projection_params : Bool
unfolding stream_buffer
do_projection_params = stream_buffer 100

-- `ossimTcpStreamClient::doImageData`; `tile` is whether the sequencer gives a first tile. The loop never
-- asks for another one: `none` is a run that has used up its fuel.
unfoldable pub do_image_data : ℕ → Bool → Option Bool
do_image_data fuel false = some true
do_image_data zero true = none
do_image_data (suc fuel) true = do_image_data fuel true

-- `ossimTcpStreamClient::execute`
unfoldable pub execute : ℕ → Bool → StreamClient → Option Bool
unfolding do_metadata do_rpc_model_params do_projection_params do_image_data
execute fuel tile c =
    elim (c.handler && do_metadata && do_rpc_model_params && do_projection_params) [
      | false ↦ some false
      | true ↦ do_image_data fuel tile
    ]
