-- ===== src/Tests.antt =====
-- Runs of the model on small inputs, and each result applied to a concrete input.
mod Ciphers
mod Keys
mod Texts
mod Scripts
mod Session
mod Archives
mod Runner
mod Calls
mod Sound
