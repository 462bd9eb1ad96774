-- ===== src/AtHelper.antt =====
-- tb45_sms_at_helper.h and tb45_sms_at_helper.c: AT commands on the modem's user pipe.
pub mod Capture
pub mod Window
pub mod Platform
pub mod RawSend
pub mod Script
