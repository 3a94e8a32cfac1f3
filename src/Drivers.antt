-- ===== src/Drivers.antt =====
-- VirtualGateway/devcontrol_gateway/drivers.py
pub mod Base
pub mod Light
pub mod Environment
pub mod AirConditioner
pub mod BathHeater
pub mod Humidifier
pub mod DoorLock
pub mod Curtain
pub mod Controls
