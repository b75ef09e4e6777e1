-- ===== src/Routing/Release.antt =====
-- internal/routing/router.go: Release and ReleaseAdministrative. A lease is released once; `clock`
-- numbers the readings of the time in a release, and `canceled` tells which contexts have ended.
pub mod Once
use clash_of_tokens.Base.{
  ℕ, zero, suc, ◌≡◌, refl, Bool, true, false, not, ◌&&◌, ◌||◌, List, [], ◌∷◌, Option, none, some,
  ◌+◌, ◌-◌, ◌*◌, ◌/◌, ◌^◌, if◌then◌else◌,
}
use clash_of_tokens.Base.Int.{ℤ, pos, pos_part, leb_ℤ, ltb_ℤ, eqb_ℤ, min_ℤ, minus_one}
use clash_of_tokens.Base.Float.{Float64, zero_f}
use clash_of_tokens.Routing.Types.{State, Quota, Router, Capacity, System, Lease, u64}
use clash_of_tokens.Routing.Pools.{Sha256}
use clash_of_tokens.Routing.Heap.{modify_state, modify_quota, modify_account, modify_capacity}
use clash_of_tokens.Routing.Queue.{signal}
use clash_of_tokens.Routing.Events.{is_2xx, record_event}

-- time.Second, in nanoseconds.
abbrev pub second : ℕ
second = 10 ^ 9

-- How long a 429 closes the quota: 30 seconds unless it says, and a day at most.
unfoldable pub quota_cooldown : ℤ → ℕ
quota_cooldown retry_after =
    let wait = if leb_ℤ retry_after (pos 0) then pos (30 * second) else retry_after in
    pos_part (min_ℤ wait (pos (24 * 3600 * second)))

module _ {F : Type 0} ⦃fl : Float64 F⦄ where
  abbrev pub state_freed : State F → State F
  state_freed st = record st { active = st.active - 1 }

  abbrev pub quota_freed : Quota F → Quota F
  quota_freed a = record a { active = a.active - 1 }

  unfoldable pub free_slots : ℕ → ℕ → Option ℕ → System F → System F
  free_slots state quota account sys = modify_account account quota_freed (
      modify_quota quota quota_freed (
        modify_state state state_freed
          (modify_capacity (λ c. record c { active = c.active - 1 }) sys)))

  -- A success is counted, and moves the latency a fifth of the way.
  unfoldable pub succeed : ℕ → ℕ → State F → State F
  succeed finished elapsed st =
      let ms = fl.of_int (pos (elapsed / 1000000)) in
      record st {
        last_success = finished;
        completed = u64 (st.completed + 1);
        latency =
            (if fl.eq st.latency zero_f
              then ms
              else fl.add (fl.mul st.latency (fl.decimal 8 1)) (fl.mul ms (fl.decimal 2 1)));
      }

  -- A failure is counted, and one of the upstream or the transport closes the source for 5 seconds.
  unfoldable pub fail : ℤ → ℕ → ℕ → State F → State F
  fail status finished now st = record st {
    last_failure = finished;
    failures = u64 (st.failures + 1);
    cooldown =
        (if eqb_ℤ status (pos 0) || leb_ℤ (pos 500) status then now + 5 * second else st.cooldown);
  }

  -- What the status of a request does to the state of its source.
  unfoldable pub settle_state : (ℕ → ℕ) → ℤ → ℕ → State F → State F
  unfolding succeed fail
  settle_state clock status started st =
      let marked = record st {
        last_http_status = status;
        blocked = if eqb_ℤ status (pos 401) || eqb_ℤ status (pos 403) then true else st.blocked;
      } in
      if is_2xx status
      then succeed (clock 3) (clock 4 - started) marked
      else if eqb_ℤ status (pos 499)
      then marked
      else fail status (clock 3) (clock 4) marked

  unfoldable pub settle_quota : ℕ → ℤ → ℤ → Quota F → Quota F
  unfolding quota_cooldown
  settle_quota now status retry_after a =
      if eqb_ℤ status (pos 429) then record a { cooldown = now + quota_cooldown retry_after } else a

  unfoldable pub settle_release : (ℕ → ℕ) → ℤ → ℤ → Lease F → System F → System F
  unfolding settle_state settle_quota record_event
  settle_release clock status retry_after l sys =
      modify_state l.state (settle_state clock status l.started) (
        modify_quota l.quota (settle_quota (clock 2) status retry_after)
          (record_event clock status l sys))

module _ {F : Type 0} ⦃fl : Float64 F⦄ ⦃sha : Sha256⦄ where
  unfoldable pub release : (ℕ → Bool) → (ℕ → ℕ) → ℤ → ℤ → Lease F → System F → Lease F × System F
  unfolding free_slots settle_release
  release canceled clock status retry_after l sys =
      if l.once
      then (l, sys)
      else (let freed = free_slots l.state l.quota l.account sys in
          let settled =
            if eqb_ℤ status minus_one
            then freed
            else settle_release clock status retry_after l freed in
          (record l { once = true }, signal canceled (clock 5) settled.current settled))

  -- Capacity is returned, and no result recorded.
  unfoldable pub release_administrative :
      (ℕ → Bool) → (ℕ → ℕ) → Lease F → System F → Lease F × System F
  unfolding release
  release_administrative canceled clock l sys = release canceled clock minus_one (pos 0) l sys
