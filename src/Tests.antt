-- ===== src/Tests.antt =====
-- Concrete inputs: the parameters instantiated, each theorem applied, and runs of the code.
mod Models
mod Hex
mod Keys
mod RefUpdates
mod Graph
mod Protocol
mod Memory
mod Server
mod Sessions
mod Policy
mod Repos
mod Listing
mod Objects
