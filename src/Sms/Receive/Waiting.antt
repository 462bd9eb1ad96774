-- ===== src/Sms/Receive/Waiting.antt =====
-- The triggers that come while the modem is being set up, and the one that waits in their
-- place.
use mathlib.Core.Option.{some-injective}
use mathlib.Core.Path.{subst}
use tibbit.Common.{
  ℕ, zero, suc, ◌≡◌, refl, ap, ◌∙◌, ◌≢◌, ◌⊎◌, inl, inr, Bool, true, false, not, ◌||◌, Bool-cases,
  if_elim, Option, none, some, List, [], ◌∷◌, pos, ◌==◌, arith, if◌then◌else◌, get_elem?,
}
use tibbit.DelayableRetry
use tibbit.DelayableRetry.{Retry}
use tibbit.Sms.Receive.Platform.{Trigger, Services}
use tibbit.Sms.Receive.{Rx, Config, merge, init_is_ready, init_merge_trigger}
use tibbit.Sms.Receive.Init.{set_last_ret, set_state}
use tibbit.Sms.Receive.Worker.{Receiver, process_trigger}
use tibbit.Sms.Receive.Started.{Blind, IsArmed, init_retry_start_keeps}

-- The trigger that waits for the end of the setup.
abbrev pub kept_trigger : Option Trigger → Trigger → Trigger
kept_trigger none t = t
kept_trigger (some pending) t = merge pending t

pub merged-kept_trigger :
    (t : Trigger) (o : Option Trigger)
    → elim o [ none ↦ some t | some pending ↦ some (merge pending t) ] ≡ some (kept_trigger o t)
merged-kept_trigger t none = refl
merged-kept_trigger t (some pending) = refl

-- To process the first is to look for the messages of the second: it is a scan, or both ask for the
-- same index.
abbrev pub Covers : Trigger → Trigger → Type 0
Covers w t = (w.full_scan ≢ 0) ⊎ (t.full_scan ≡ 0) × (w.storage_index ≡ t.storage_index)

self-Covers : (t : Trigger) → Covers t t
self-Covers t = elim (Bool-cases (t.full_scan == 0)) [
  | inl index ↦ inr (ground arith, refl)
  | inr more ↦ inl (ground arith)
]

merge-Covers : (w t u : Trigger) → Covers w u ⊎ Covers t u → Covers (merge w t) u
unfolding merge
merge-Covers w t u h =
    let differ =
      not (w.full_scan == 0)
      || not (t.full_scan == 0)
      || not (w.storage_index == t.storage_index) in
    if_elim (λ x. Covers x u) differ (λ scan. inl (omega arith))
      (λ same. elim h [
        | inl covers ↦ covers
        | inr (inl full) ↦ absurd (ground (arith, full, same))
        | inr (inr (one, index)) ↦ inr (one, ground (arith, index, same))
      ])

kept-Covers : (o : Option Trigger) (t : Trigger) → Covers (kept_trigger o t) t
kept-Covers none t = self-Covers t
kept-Covers (some q) t = merge-Covers q t t (inr (self-Covers t))

module _ {E : Type 0} (c : Config) (p : Services E) where
  abbrev Seen : Type 0
  Seen = Bool × Bool × Option Trigger

  abbrev seen : Rx E → Seen
  seen r = (r.setup_done, r.cleanup_done, r.init_ctx.pending_trigger)

  abbrev kept_seen : Seen → Trigger → Seen
  kept_seen x t = (x.0, x.1, some (kept_trigger x.2 t))

  abbrev ready_of : Seen → Bool
  ready_of x = if not x.0 then false else if not c.startup_cleanup then true else x.1

  seen-Blind : Blind c p seen
  unfolding set_state set_last_ret
  seen-Blind = record {
    state = λ s r. refl;
    last_ret = λ ret r. refl;
    count = λ n r. refl;
    command = λ cmd r. refl;
    rearm = λ ms r. refl;
  }

  -- The modem is not set up, and the callbacks of the setup are in place.
  abbrev Waits : Receiver E → Type 0
  Waits m = (init_is_ready c m.rx ≡ false) × IsArmed c p m.init_retry

  abbrev Kept : Trigger → Receiver E → Receiver E → Type 0
  Kept t m m' = (seen m'.rx ≡ kept_seen (seen m.rx) t) × IsArmed c p m'.init_retry

  process_trigger-Kept :
      (t : Trigger) (m : Receiver E) → Waits m → Kept t m (process_trigger c p t m)
  unfolding process_trigger init_merge_trigger set_last_ret init_is_ready
  process_trigger-Kept t m (more, armed) =
      let r = if m.rx.setup_done then m.rx else record (m.rx) { init_wait_logged = true } in
      let same_seen : seen r ≡ seen m.rx =
        if_elim (λ (x : Rx E). seen x ≡ seen m.rx) m.rx.setup_done (λ done. refl) (λ waits. refl) in
      let still : init_is_ready c r ≡ false = ap ready_of same_seen ∙ more in
      let old = m.rx.init_ctx.pending_trigger in
      let same : seen (init_merge_trigger t r) ≡ kept_seen (seen m.rx) t =
        ap (λ (x : Seen). (x.0, x.1, elim x.2 [ none ↦ some t | some q ↦ some (merge q t) ]))
          same_seen
        ∙ ap (λ o. (m.rx.setup_done, m.rx.cleanup_done, o)) (merged-kept_trigger t old) in
      let waiting : Receiver E = record m { rx = set_last_ret (pos 0) (init_merge_trigger t r) } in
      if_elim (Kept t m) (not (init_is_ready c r))
        (λ unready.
          if_elim (Kept t m) (DelayableRetry.is_pending m.init_retry) (λ pending. (same, armed))
            (λ idle.
              let (kept, in_place) =
                init_retry_start_keeps c p seen waiting seen-Blind armed still in
              (kept ∙ same, in_place)))
        (λ ready. absurd (ground (arith, ready, still)))

  -- The triggers of a list, one processed after the other.
  abbrev pub process_each : List Trigger → Receiver E → Receiver E
  process_each [] m = m
  process_each (t ∷ ts) m = process_each ts (process_trigger c p t m)

  process_trigger-Waits : (t : Trigger) (m : Receiver E) → Waits m → Waits (process_trigger c p t m)
  unfolding init_is_ready
  process_trigger-Waits t m waits =
      let (same, armed) = process_trigger-Kept t m waits in (ap ready_of same ∙ waits.0, armed)

  -- What stands for a trigger still does after others have come.
  covered_stays :
      (ts : List Trigger) (m : Receiver E) (w t : Trigger)
      → Waits m
      → m.rx.init_ctx.pending_trigger ≡ some w
      → Covers w t
      → (v : Trigger) × ((process_each ts m).rx.init_ctx.pending_trigger ≡ some v) × Covers v t
  covered_stays [] m w t waits pending covers = (w, pending, covers)
  covered_stays (u ∷ us) m w t waits pending covers =
      let (same, _) = process_trigger-Kept u m waits in
      covered_stays us (process_trigger c p u m) (merge w u) t (process_trigger-Waits u m waits)
        (ap (λ (x : Seen). x.2) same ∙ ap (λ o. some (kept_trigger o u)) pending)
        (merge-Covers w u t (inl covers))

  -- While the modem is not set up no trigger is lost: of any triggers that are processed one after
  -- another, each is covered by the one trigger that waits in the end, which is a scan, or asks for
  -- the same message. It is assumed that the callbacks of the setup are in place.
  pub waiting_trigger-Covers :
      (ts : List Trigger) (m : Receiver E) (i : ℕ) (t : Trigger)
      → IsArmed c p m.init_retry
      → init_is_ready c m.rx ≡ false
      → get_elem? ts i ≡ some t
      → (w : Trigger) × ((process_each ts m).rx.init_ctx.pending_trigger ≡ some w) × Covers w t
  waiting_trigger-Covers [] m i t armed more at = absurd (cc at)
  waiting_trigger-Covers (u ∷ us) m zero t armed more at =
      let (same, _) = process_trigger-Kept u m (more, armed) in
      let w = kept_trigger m.rx.init_ctx.pending_trigger u in
      let is_u : u ≡ t = some-injective u t at in
      covered_stays us (process_trigger c p u m) w t (process_trigger-Waits u m (more, armed))
        (ap (λ (x : Seen). x.2) same)
        (subst (Covers w) is_u (kept-Covers m.rx.init_ctx.pending_trigger u))
  waiting_trigger-Covers (u ∷ us) m (suc i) t armed more at =
      let (still, in_place) = process_trigger-Waits u m (more, armed) in
      waiting_trigger-Covers us (process_trigger c p u m) i t in_place still at
