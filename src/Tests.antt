-- ===== src/Tests.antt =====
-- Concrete libraries, worlds and runs of the model, and instances of the main theorems.
mod Setting
mod Runs
mod Rules
mod Transfers
mod Photos
mod Clients
mod Sockets
mod Task
mod Keys
mod Secrets
mod Probes
mod Uploads
mod Flights
mod Servers
