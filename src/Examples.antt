-- ===== src/Examples.antt =====
-- The theorems at work: each module runs the code on concrete inputs.
mod Base
mod Certificates
mod Sealing
mod Transports
mod Broker
mod Signing
mod Drivers
mod Motors
mod Storage
mod Registry
mod Sessions
mod Service
