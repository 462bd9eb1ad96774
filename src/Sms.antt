-- ===== src/Sms.antt =====
-- tb45_sms.h and tb45_sms.c: the SMS service. One child module for each of its parts.
pub mod Request
pub mod ResultQueue
pub mod Validation
pub mod Fields
pub mod Listing
pub mod Receive
pub mod Send
