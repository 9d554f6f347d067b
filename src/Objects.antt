-- ===== src/Objects.antt =====
-- include/lwm2m/objects/ and src/objects/: the standard LWM2M objects.
pub mod Instances
pub mod Multiple
pub mod Security
pub mod Server
pub mod Firmware
pub mod Device
pub mod Connectivity
pub mod Location
