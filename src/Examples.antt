-- ===== src/Examples.antt =====
-- Runs of the modelled program on small tables, and the theorems at them.
mod Data
mod Slots
mod Instances
mod Money
mod Agents
mod Handlers
mod Profiles
mod Machines
mod Operations
mod Tickets
mod Mux
mod Tokens
mod Gpus
