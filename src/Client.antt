-- ===== src/Client.antt =====
-- class TCPClient (src/tcpclient.h, src/tcpclient.cpp).
pub mod Commutes
pub mod Os
pub mod Monad
pub mod Base
pub mod Send
pub mod Receive
pub mod Connect
pub mod Chunks
pub mod ReceiveChunks
pub mod Errors
pub mod Hazards
