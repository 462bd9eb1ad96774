-- ===== src/Ping.antt =====
-- tb45_ping.h and tb45_ping.c: pings, run synchronously or as jobs. Here: the context of a run with
-- its helpers, and the checks of a request. Logging is left out.
pub mod Platform
pub mod Async
pub mod Limits
mod Tests
use tibbit.Common.{
  ℕ, ◌+◌, ◌-◌, ◌*◌, ◌%◌, ◌^◌, Bool, true, false, not, ◌||◌, ◌&&◌, Option, none, some, List, [], ◌∷◌,
  ℤ, pos, is_neg, eqb_ℤ, leb, ltb, ◌==◌, if◌then◌else◌, length, Bytes,
}
use tibbit.Common.Errno.{einval, eio, enodev, ehostunreach, ecanceled, etimedout}
use tibbit.Ping.Platform.{Progress, Request, AddrInfo, Services}

abbrev pub between_requests_ms : ℕ
between_requests_ms = 1000

abbrev pub wait_poll_ms : ℕ
wait_poll_ms = 100

abbrev pub default_payload_size : ℕ
default_payload_size = 4

abbrev pub max_payload_size : ℕ
max_payload_size = 1472

-- `struct tb45_ping_run_ctx`, without the kernel's objects
pub record RunCtx (Addr Iface : Type 0) : Type 0 where
  pub iface : Option Iface
  pub dst_addr : Addr
  pub identifier : ℕ
  pub expected_identifier : ℕ
  pub expected_sequence : ℕ
  pub sent : ℕ
  pub received : ℕ
  pub reply_addr : Addr
  pub reply_received : Bool
  pub log_replies : Bool

-- The Kconfig values that the file reads.
pub record Config : Type 0 where
  pub host_max_len : ℕ
  pub default_count : ℕ
  pub max_count : ℕ
  pub default_timeout_ms : ℕ
  pub min_timeout_ms : ℕ
  pub max_timeout_ms : ℕ
  pub extra_retries : ℕ
  pub retry_delay_ms : ℕ

-- The first IPv4 address of a resolver's answer.
unfoldable pub first_inet : {Addr : Type 0} → List (AddrInfo Addr) → Option Addr
first_inet [] = none
first_inet (entry ∷ entries) =
    let later = first_inet entries in
    if entry.is_inet then (elim entry.addr [ none ↦ later | some a ↦ some a ]) else later

module _ {Addr Iface E : Type 0} (p : Services Addr Iface E) where
  unfoldable pub resolve_ipv4_host : Bytes → E → ℤ × Option Addr × E
  unfolding first_inet
  resolve_ipv4_host host e =
      let (ret, results, e') = p.getaddrinfo host e in
      elim (p.pton host) [
        | some a ↦ (pos 0, some a, e)
        | none ↦ elim results [
          | none ↦ (ehostunreach, none, e')
          | some entries ↦
              if not (eqb_ℤ ret (pos 0))
              then (ehostunreach, none, e')
              else elim (first_inet entries) [
                | none ↦ (ehostunreach, none, p.freeaddrinfo e')
                | some a ↦ (pos 0, some a, p.freeaddrinfo e')
              ]
        ]
      ]

  -- The context of a run to an address over an interface; what was there is overwritten.
  unfoldable pub run_ctx_for : Request Addr E → Addr → Iface → E → RunCtx Addr Iface
  run_ctx_for req dst iface e = record {
    iface = some iface;
    dst_addr = dst;
    identifier = p.uptime e % 2 ^ 16;
    expected_identifier = p.uptime e % 2 ^ 16;
    expected_sequence = 0;
    sent = 0;
    received = 0;
    reply_addr = p.any_addr;
    reply_received = false;
    log_replies = elim req.progress_cb [ none ↦ true | some _ ↦ false ];
  }

  unfoldable pub init_run_ctx : Request Addr E → RunCtx Addr Iface → E → ℤ × RunCtx Addr Iface × E
  unfolding resolve_ipv4_host run_ctx_for
  init_run_ctx req ctx e =
      let (ret, dst, e') = resolve_ipv4_host req.host e in
      elim dst [
        | none ↦ (ret, ctx, e')
        | some a ↦ elim (p.default_iface e') [
          | none ↦ (enodev, ctx, e')
          | some iface ↦
              let ctx' = run_ctx_for req a iface e' in
              let (init_ret, e'') = p.icmp_init e' in
              (if is_neg init_ret then init_ret else pos 0, ctx', e'')
        ]
      ]

  -- What `tb45_ping_finish_run` answers.
  unfoldable pub run_result : RunCtx Addr Iface → ℤ → ℤ
  run_result ctx ret =
      if eqb_ℤ ret ecanceled
      then ecanceled
      else if ctx.sent == 0
      then (if is_neg ret then ret else eio)
      else if ctx.received == 0
      then etimedout
      else pos 0

  unfoldable pub finish_run : RunCtx Addr Iface → ℤ → E → ℤ × E
  unfolding run_result
  finish_run ctx ret e = (run_result ctx ret, p.icmp_cleanup e)

  unfoldable pub report_progress : Request Addr E → RunCtx Addr Iface → ℕ → ℕ → Bool → ℤ → E → E
  report_progress req ctx sequence elapsed_ms success status e = elim req.progress_cb [
    | none ↦ e
    | some f ↦
        f
          (record {
            host = req.host;
            sequence = sequence;
            elapsed_ms = elapsed_ms;
            timeout_ms = req.timeout_ms;
            payload_size = req.payload_size;
            success = success;
            status = status;
            reply_addr = ctx.reply_addr;
          })
          e
  ]

  -- `tb45_ping_reply_handler` with its pointers given, on the source address of the packet and on
  -- the identifier and sequence number that could be read from it.
  unfoldable pub reply_handler : Addr → Option (ℕ × ℕ) → RunCtx Addr Iface → RunCtx Addr Iface
  reply_handler src none ctx = ctx
  reply_handler src (some (identifier, sequence)) ctx =
      if not (p.same_addr src ctx.dst_addr)
        || not (identifier == ctx.expected_identifier)
        || not (sequence == ctx.expected_sequence)
      then ctx
      else record ctx { reply_addr = src; reply_received = true }

-- `tb45_ping_prepare_request`; 0 stands for the default count and the default timeout.
unfoldable pub prepare_request :
    {Addr E : Type 0} → Config → Option Bytes → ℕ → ℕ → ℤ × Option (Request Addr E)
prepare_request c none count₀ timeout₀ = (einval, none)
prepare_request c (some host) count₀ timeout₀ =
    let count = if count₀ == 0 then c.default_count else count₀ in
    let timeout_ms = if timeout₀ == 0 then c.default_timeout_ms else timeout₀ in
    if length host == 0 || ltb c.host_max_len (length host)
    then (einval, none)
    else if count == 0 || ltb c.max_count count
    then (einval, none)
    else if ltb timeout_ms c.min_timeout_ms || ltb c.max_timeout_ms timeout_ms
    then (einval, none)
    else (
      pos 0,
      some (record {
        host = host;
        count = count;
        timeout_ms = timeout_ms;
        payload_size = default_payload_size;
        progress_cb = none;
        complete_cb = none;
      }),
    )

-- `tb45_ping_async_wait_timeout_ms`, whose sums stay far below 2 ^ 64.
unfoldable pub async_wait_timeout_ms : {Addr E : Type 0} → Config → Option (Request Addr E) → ℕ
async_wait_timeout_ms c none = 1000
async_wait_timeout_ms c (some req) =
    let per_request_ms = req.timeout_ms + wait_poll_ms + 200 in
    let gaps_ms = if ltb 1 req.count then (req.count - 1) * between_requests_ms else 0 in
    let one_attempt_ms = req.count * per_request_ms + gaps_ms in
    let attempts = 1 + c.extra_retries in
    let delays_ms = if ltb 1 attempts then (attempts - 1) * c.retry_delay_ms else 0 in
    let total_ms = one_attempt_ms * attempts + delays_ms + 2000 in
    let capped = if ltb 0x7fffffff total_ms then 0x7fffffff else total_ms in
    if ltb capped 1000 then 1000 else capped
