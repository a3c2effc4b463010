-- ===== src/Examples.antt =====
-- Runs of the modelled code on concrete inputs.
mod Resilience
mod Limits
mod Stores
mod Bus
mod Engine
mod Agents
mod Tools
mod Http
mod Settings
