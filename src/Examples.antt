-- ===== src/Examples.antt =====
-- A concrete world, on which the theorems are applied.
mod Codec
mod World
mod Laws
mod Setting
mod Secrets
mod Tokens
mod Revoked
mod Requests
mod Routes
mod Providers
mod Deployed
mod Entropy
mod Logins
mod Apis
mod Rows
mod Started
mod Stored
mod Deliveries
mod Devices
