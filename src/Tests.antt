-- ===== src/Tests.antt =====
-- The theorems at concrete inputs.
mod Data
mod Host
mod Phones
mod Requests
mod Files
mod Logins
mod Keys
mod Services
mod Computers
mod Connections
mod Adding
