-- ===== src/Tests.antt =====
-- Runs on concrete inputs, and the theorems applied where their hypotheses hold.
mod Sample
mod Names
mod Endpoint
mod Calls
mod Steps
mod Interpret
mod Auth
mod Publisher
mod Server
mod Presence
mod Client
mod Answered
mod Subscribed
mod Offered
mod Config
mod Admitting
