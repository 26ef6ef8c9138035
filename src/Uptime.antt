-- ===== src/Uptime.antt =====
-- `sys_now` of fw/pano_ldr/main.c, the clock of lwIP.
pub mod Timer
use panog2_ldr.Base.{ℕ, ◌+◌, ◌-◌, ◌^◌, u32}

-- The static variables, and what is returned.
pub record Clock : Type 0 where
  pub last_timer_now : ℕ
  pub uptime : ℕ

abbrev pub initial_clock : Clock
initial_clock = record { last_timer_now = 0; uptime = 0 }

-- The new state for a value of `timer_now`; `uptime` is returned.
pub sys_now : ℕ → Clock → Clock
sys_now timer_now c =
    let now = u32 timer_now in
    record { uptime = u32 (c.uptime + u32 (now + 2 ^ 32 - c.last_timer_now)); last_timer_now = now }
