-- ===== src/Registers.antt =====
-- src/huawei_solar/registers.py: the register classes and the table of registers.
pub mod Days
pub mod Values
pub mod Definition
pub mod Utf8
pub mod Number
pub mod Names
pub mod Table
pub mod Codec
pub mod Tou
pub mod LgResu
pub mod Luna2000
pub mod ChargeDischarge
pub mod Peak
