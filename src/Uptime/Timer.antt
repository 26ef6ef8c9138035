-- ===== src/Uptime/Timer.antt =====
-- What the clock shows after any readings of the timer.
use panog2_ldr.Base.{ℕ, ◌^◌, ◌<◌, ◌≡◌, refl, arith, List, [], ◌∷◌, ◌++◌, u32}
use panog2_ldr.Uptime.{Clock, initial_clock, sys_now}

-- The state after a list of readings.
pub readings : List ℕ → Clock → Clock
readings [] c = c
readings (t ∷ ts) c = readings ts (sys_now t c)

sys_now_in_step :
    (t : ℕ) (c : Clock)
    → c.uptime ≡ c.last_timer_now
    → c.last_timer_now < 2 ^ 32
    → ((sys_now t c).uptime ≡ u32 t) × ((sys_now t c).last_timer_now ≡ u32 t)
unfolding sys_now
sys_now_in_step t c e h = (omega arith, refl)

readings_in_step :
    (ts : List ℕ) (t : ℕ) (c : Clock)
    → c.uptime ≡ c.last_timer_now
    → c.last_timer_now < 2 ^ 32
    → (readings (ts ++ t ∷ []) c).uptime ≡ u32 t
unfolding readings
readings_in_step [] t c e h = (sys_now_in_step t c e h).0
readings_in_step (r ∷ ts) t c e h =
    let (up, last) = sys_now_in_step r c e h in
    readings_in_step ts t (sys_now r c) (cc) (omega arith)

-- After any earlier calls, `sys_now` returns the timer's own value in 32 bits: where the timer wraps to a
-- small value, so does the uptime.
pub sys_now-eq-timer :
    (ts : List ℕ) (t : ℕ) → (readings (ts ++ t ∷ []) initial_clock).uptime ≡ u32 t
sys_now-eq-timer ts t = readings_in_step ts t initial_clock refl (omega arith)
