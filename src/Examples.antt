-- ===== src/Examples.antt =====
-- Runs of the program's functions and the theorems at concrete inputs.
mod Kernel
mod Sockets
mod Packets
mod Admin
mod Dumps
mod Commands
mod Listeners
mod Programs
mod Desk
mod Scopes
mod Replies
mod Objects
mod Output
mod Wires
