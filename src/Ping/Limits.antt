-- ===== src/Ping/Limits.antt =====
-- The limits of a ping request, of the wait for a job, and of the result of a run.
use mathlib.Core.Path.{subst}
use native.Mathlib.Nat.{add-le-add, mul-le-mul_left, mul-le-mul_right}
use tibbit.Common.{
  ℕ, ◌+◌, ◌-◌, ◌*◌, ◌≤◌, ◌<◌, ◌≡◌, refl, sym, ◌⊎◌, true, false, ◌||◌, Option, none, some, ℤ, pos,
  is_neg, arith, length, if_elim, ltb, ◌==◌, if◌then◌else◌, eqb_ℤ, Bytes,
}
use tibbit.Common.Errno.{einval, ecanceled}
use tibbit.Ping.Platform.{Request, Services}
use tibbit.Ping.{Config, RunCtx, run_result, prepare_request, async_wait_timeout_ms}

abbrev pub or_default : ℕ → ℕ → ℕ
or_default n default = if n == 0 then default else n

-- What the Kconfig allows of a request.
abbrev InRange : Config → Bytes → ℕ → ℕ → Type 0
InRange c host count timeout_ms =
    (0 < length host)
    × (length host ≤ c.host_max_len)
    × (0 < count)
    × (count ≤ c.max_count)
    × (c.min_timeout_ms ≤ timeout_ms)
    × (timeout_ms ≤ c.max_timeout_ms)

abbrev pub Checked :
    {Addr E : Type 0} → Config → Bytes → ℕ → ℕ → ℤ × Option (Request Addr E) → Type 0
Checked c host count timeout_ms (ret, none) = (ret ≡ einval) × ¬ InRange c host count timeout_ms
Checked c host count timeout_ms (ret, some req) =
    (ret ≡ pos 0)
    × InRange c host count timeout_ms
    × (req.host ≡ host)
    × (req.count ≡ count)
    × (req.timeout_ms ≡ timeout_ms)

-- For any limits, host, count and timeout: with the defaults in place of zeros, the request is
-- prepared with this host, count and timeout and the answer 0 where all of them are in range, and
-- it is refused with -EINVAL where one is not.
pub prepare_request-InRange :
    (Addr E : Type 0) (c : Config) (host : Bytes) (count timeout_ms : ℕ)
    → Checked c host
        (or_default count c.default_count)
        (or_default timeout_ms c.default_timeout_ms)
        (prepare_request {Addr = Addr} {E = E} c (some host) count timeout_ms)
unfolding prepare_request
prepare_request-InRange Addr E c host count₀ timeout₀ =
    let count = or_default count₀ c.default_count in
    let timeout_ms = or_default timeout₀ c.default_timeout_ms in
    let P : ℤ × Option (Request Addr E) → Type 0 = Checked c host count timeout_ms in
    if_elim P (length host == 0 || ltb c.host_max_len (length host))
      (λ bad. (refl, λ h. ground (arith, bad, h)))
      (λ host_ok.
        if_elim P (count == 0 || ltb c.max_count count) (λ bad. (refl, λ h. ground (arith, bad, h)))
          (λ count_ok.
            if_elim P (ltb timeout_ms c.min_timeout_ms || ltb c.max_timeout_ms timeout_ms)
              (λ bad. (refl, λ h. ground (arith, bad, h)))
              (λ timeout_ok.
                (refl, ground (arith, host_ok, count_ok, timeout_ok), refl, refl, refl))))

-- For every result of a run and its counters, where no more replies were received than requests
-- sent: `tb45_ping_finish_run` answers 0 if a reply was received and the run was not canceled,
-- and an error, which is a negative number, otherwise.
pub run_result_zero :
    {Addr Iface E : Type 0} (p : Services Addr Iface E) (ctx : RunCtx Addr Iface) (ret : ℤ)
    → ctx.received ≤ ctx.sent
    → ((run_result p ctx ret ≡ pos 0) × (eqb_ℤ ret ecanceled ≡ false) × (0 < ctx.received))
      ⊎ ((is_neg (run_result p ctx ret) ≡ true)
          × ((eqb_ℤ ret ecanceled ≡ true) ⊎ (ctx.received ≡ 0)))
unfolding run_result
run_result_zero p ctx ret le = ground arith

all_delays : (n r : ℕ) → n * r ≤ (if ltb 1 (1 + n) then (1 + n - 1) * r else 0)
all_delays n r =
    if_elim (λ x. n * r ≤ x) (ltb 1 (1 + n)) (λ _. mul-le-mul_right r (omega arith))
      (λ small. subst (λ m. m * r ≤ 0) (sym (zero_of n small)) (omega arith))
  where
    zero_of : (n : ℕ) → ltb 1 (1 + n) ≡ false → n ≡ 0
    zero_of n small = ground (arith, small)

capped :
    (needed total : ℕ)
    → needed ≤ total
    → let cut = if ltb 0x7fffffff total then 0x7fffffff else total in
      let wait = if ltb cut 1000 then 1000 else cut in
      (1000 ≤ wait) × (wait ≤ 0x7fffffff) × ((wait ≡ 0x7fffffff) ⊎ (needed ≤ wait))
capped needed total le = ground arith

-- For every request and every limit: the wait for its job lasts between one second and
-- 0x7fffffff ms; and below that cap it covers every attempt with all its timeouts and the pauses
-- between its requests, and the delays between the attempts.
pub async_wait_timeout_covers :
    {Addr E : Type 0} (c : Config) (req : Request Addr E)
    → let wait = async_wait_timeout_ms c (some req) in
      (1000 ≤ wait)
      × (wait ≤ 0x7fffffff)
      × ((wait ≡ 0x7fffffff)
          ⊎ ((req.count * req.timeout_ms + (req.count - 1) * 1000) * (1 + c.extra_retries)
                + c.extra_retries * c.retry_delay_ms
              ≤ wait))
unfolding async_wait_timeout_ms
async_wait_timeout_covers c req =
    let per = req.timeout_ms + 100 + 200 in
    let gaps = if ltb 1 req.count then (req.count - 1) * 1000 else 0 in
    let delays =
      if ltb 1 (1 + c.extra_retries) then (1 + c.extra_retries - 1) * c.retry_delay_ms else 0 in
    let gaps_all : (req.count - 1) * 1000 ≤ gaps = ground arith in
    let delays_all : c.extra_retries * c.retry_delay_ms ≤ delays =
      all_delays c.extra_retries c.retry_delay_ms in
    let one : req.count * req.timeout_ms + (req.count - 1) * 1000 ≤ req.count * per + gaps =
      add-le-add (mul-le-mul_left req.count (omega arith)) gaps_all in
    let all : (req.count * req.timeout_ms + (req.count - 1) * 1000) * (1 + c.extra_retries)
        ≤ (req.count * per + gaps) * (1 + c.extra_retries) =
      mul-le-mul_right (1 + c.extra_retries) one in
    capped _ ((req.count * per + gaps) * (1 + c.extra_retries) + delays + 2000)
      (omega (arith, all, delays_all))
