-- ===== src/Optimizers.antt =====
-- src/huawei_solar/files.py: the optimizer files of the inverter.
pub mod Entries
pub mod RealTime
pub mod SystemInformation
pub mod Laws
pub mod Versions
