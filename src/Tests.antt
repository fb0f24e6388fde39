-- ===== src/Tests.antt =====
-- Runs of the model at concrete inputs, in a world of fixed answers.
mod World
mod Lives
mod Startup
mod Texts
mod Clients
mod Steps
mod Keys
mod Steady
