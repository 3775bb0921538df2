-- ===== src/Storage.antt =====
-- The container store: destor-master/src/storage and the serialisation of utils/serial.c.
pub mod Memory
pub mod Serial
pub mod Container
pub mod Pool
