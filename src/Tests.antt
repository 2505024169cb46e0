-- ===== src/Tests.antt =====
-- A small world to run the model in, and the theorems at concrete inputs.
mod World
mod Resolution
mod Witnesses
mod Finalised
mod Denials
mod Servers
mod Requests
mod Zones
mod Configured
mod Running
mod Transported
mod Dotted
mod Started
mod Connected
mod Cached
