-- ===== src/PppProbe/Restore.antt =====
-- The attempts to restore the runtime defaults after PPP is up.
use tibbit.Common.{ℕ, ◌≡◌, Bool, true, ◌&&◌, ◌||◌, List, [], ◌∷◌, pos, eqb_ℤ, ltb, if◌then◌else◌}
use tibbit.PppProbe.Platform.{runtime_defaults_work, Callbacks, Services}
use tibbit.PppProbe.{Probe, restore_delay_ms, restore_max_attempts}
use tibbit.PppProbe.Handlers.{set_enabled, runtime_defaults_handler}

module _ {Iface E : Type 0} (interval_ms cooldown_ms : ℕ) (p : Services Iface E) where
  -- The work handler at one time after another, the outside being in the given state each time.
  abbrev pub handle_all : List E → Probe Iface E → Probe Iface E
  handle_all [] s = s
  handle_all (e ∷ es) s = handle_all es (runtime_defaults_handler interval_ms cooldown_ms p s e).0

  module _ (c : Callbacks Iface E) where
    -- PPP is up, and its defaults are in place, or are after a restore that succeeds.
    abbrev pub in_place : E → Bool
    in_place e =
        let iface = p.first_ppp e in
        let (ret, restored) = c.restore_ppp_runtime_defaults e in
        c.ppp_iface_runtime_ready iface e
        && (c.ppp_iface_runtime_defaults_ready iface e
            || eqb_ℤ ret (pos 0) && c.ppp_iface_runtime_defaults_ready iface restored)

    -- What the outside has become when that is known: a restore is tried where PPP is up and the
    -- defaults are not in place.
    abbrev pub tried : E → E
    tried e =
        let iface = p.first_ppp e in
        let (ret, restored) = c.restore_ppp_runtime_defaults e in
        if c.ppp_iface_runtime_ready iface e
        then (if c.ppp_iface_runtime_defaults_ready iface e then e else restored)
        else e

    -- How the run number `n` of the handler ends, with `b` whether the defaults are in place.
    abbrev pub RunOutcome : Bool → ℕ → Probe Iface E → E → Probe Iface E × E → Type 0
    RunOutcome b n before e (s', e') =
        (s'.restore_attempts ≡ n)
        × (if b
            then (s'.enabled ≡ true)
              × ((s', e')
                  ≡ set_enabled interval_ms cooldown_ms p true
                      (record before { restore_attempts = n }) (tried e))
            else (s'.enabled ≡ before.enabled)
              × (e' ≡ (
                  if ltb n restore_max_attempts
                  then (c.reschedule_work runtime_defaults_work restore_delay_ms (tried e)).1
                  else tried e)))
