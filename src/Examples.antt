-- ===== src/Examples.antt =====
-- Concrete systems and clients, runs of the methods on them, and the theorems at these inputs.
mod App
mod Loopback
mod Client
mod Chunks
mod Ds8
mod Hex
mod HexFiles
mod Connect
mod Commands
mod Ds8Files
mod StdStreams
mod Text
mod Threads
mod Stream
