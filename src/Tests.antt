-- ===== src/Tests.antt =====
-- The theorems at concrete inputs, and runs of the definitions.
mod Blackjack
mod WsSession
mod Rpc
mod Channels
mod Service
mod Downstream
mod Pipes
mod Client
mod Proxy
mod Programs
mod ControlServer
