-- ===== src/App.antt =====
-- class TCPClientApp (src/tcpclientapp.h, src/tcpclientapp.cpp): sending and receiving of whole files. The
-- source runs a receiver in a thread of its own beside the sender; here each is a run of its own.
pub mod Independent
pub mod Text
pub mod Timing
pub mod Status
pub mod StdInOut
pub mod Convert
pub mod WordFrames
pub mod Send
pub mod Linked
pub mod RoundTrip
pub mod Receive
pub mod Names
pub mod Main
