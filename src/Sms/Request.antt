-- ===== src/Sms/Request.antt =====
-- tb45_sms.h: the records of a request and of a result. A `char` array is the list of its bytes
-- before the terminating NUL.
use tibbit.Common.{ℕ, ℤ}
pub use tibbit.Common.{Bytes}

-- `struct tb45_sms_request`
pub record Request : Type 0 where
  pub phone_number : Bytes
  pub message : Bytes
  pub message_id : ℕ

-- `struct tb45_sms_result`
pub record SmsResult : Type 0 where
  pub request_id : ℕ
  pub result : ℤ
  pub phone : Bytes
