-- ===== src/Ping/Platform.antt =====
-- What tb45_ping.c calls: the clock, the resolver, the interfaces and ICMP of the network stack, the
-- work queue and the dispatcher. `Addr` is an IPv4 address, `Iface` an interface's handle, `E` the
-- state of everything outside.
use tibbit.Common.{ℕ, Bool, Option, List, ℤ, Bytes}

-- `struct tb45_ping_progress`
pub record Progress (Addr : Type 0) : Type 0 where
  pub host : Bytes
  pub sequence : ℕ
  pub elapsed_ms : ℕ
  pub timeout_ms : ℕ
  pub payload_size : ℕ
  pub success : Bool
  pub status : ℤ
  pub reply_addr : Addr

-- The part of `struct tb45_async_job_ping_run` that a run reads. A callback has its user data in it.
pub record Request (Addr E : Type 0) : Type 0 where
  pub host : Bytes
  pub count : ℕ  -- uint16_t
  pub timeout_ms : ℕ  -- uint32_t
  pub payload_size : ℕ  -- uint16_t
  pub progress_cb : Option (Progress Addr → E → E)
  pub complete_cb : Option (ℤ → E → E)

-- An entry of a resolver's answer: whether its family is AF_INET, and its address.
pub record AddrInfo (Addr : Type 0) : Type 0 where
  pub is_inet : Bool
  pub addr : Option Addr

pub record Services (Addr Iface E : Type 0) : Type 0 where
  pub uptime : E → ℕ  -- k_uptime_get
  pub schedule : ℕ → E → ℤ × E  -- k_work_reschedule_for_queue, in milliseconds
  pub pton : Bytes → Option Addr  -- net_addr_pton
  pub getaddrinfo : Bytes → E → ℤ × Option (List (AddrInfo Addr)) × E  -- zsock_getaddrinfo
  pub freeaddrinfo : E → E  -- zsock_freeaddrinfo
  pub default_iface : E → Option Iface  -- net_if_get_default
  pub icmp_init : E → ℤ × E  -- net_icmp_init_ctx
  pub icmp_cleanup : E → E  -- net_icmp_cleanup_ctx
  pub send_echo : Option Iface → Addr → ℕ → ℕ → ℕ → E → ℤ × E  -- identifier, sequence, data size
  pub complete_job : Request Addr E → ℤ → E → E  -- tb45_async_dispatcher_complete_job
  pub any_addr : Addr  -- all zero
  pub same_addr : Addr → Addr → Bool  -- net_ipv4_addr_cmp
