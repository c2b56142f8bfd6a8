-- ===== src/Tests.antt =====
-- Runs of the model at concrete inputs, and an instance of each theorem with hypotheses.
mod Sample
mod Protocol
mod Registry
mod Requests
mod Sentences
mod Control
mod Timers
mod Loops
mod Clients
mod Relays
mod Sessions
mod Followers
