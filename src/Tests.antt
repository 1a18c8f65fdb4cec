-- ===== src/Tests.antt =====
-- The theorems applied to concrete schedules, registers and devices.
mod Data
mod Periods
mod Numbers
mod Reading
mod Writing
mod Updating
mod Requests
mod Uploads
mod Sessions
mod OptimizerFiles
mod Logins
mod Discoveries
mod Connections
mod DeviceEntries
