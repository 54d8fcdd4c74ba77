-- ===== src/Risk/Filters/Velocity.antt =====
-- internal/risk/velocity_filter.go: the rate of ticks in a window of time, counted in a ring of the
-- last 256 times.
pub mod Window
use scalp_bot_os.Base.{
  ℕ, zero, suc, ◌+◌, ◌-◌, ◌%◌, ◌≤◌, ◌<◌, ◌==◌, Bool, true, false, ◌&&◌, ltb, leb, if◌then◌else◌,
  ◌≡◌, ◌≢◌, refl, ap, ◌∙◌, List, [], ◌∷◌, ◌++◌, length, get_or, set, replicate, length-set,
  length-replicate, get_or-set_self, get_or-set_ne, Float, ◌/F◌, ◌<F◌, ◌≤F◌, ◌>F◌, lit, Bool-cases,
  inl, inr, arith,
}

-- `capacity` of the source is 256 always.
abbrev pub capacity : ℕ
capacity = 256

pub record TickVelocityFilter (F : Type 0) : Type 0 where
  pub window_duration : ℕ
  pub min_tps : F
  pub max_tps : F
  pub timestamps : List ℕ
  pub head : ℕ
  pub count : ℕ

-- The loop of `CurrentTPS`, which walks back from an index over at most `n` times.
unfoldable pub walk : List ℕ → ℕ → ℕ → ℕ → ℕ → ℕ
walk ts window now zero i = 0
walk ts window now (suc n) i =
    let rest = walk ts window now n ((i + capacity - 1) % capacity) in
    if ltb (get_or ts i 0 + window) now then 0 else suc rest

module _ {F : Type 0} where
  -- A window that is not positive is five seconds.
  unfoldable pub new_tick_velocity_filter : ℕ → F → F → TickVelocityFilter F
  new_tick_velocity_filter window min_tps max_tps = record {
    window_duration = if window == 0 then 5_000_000_000 else window;
    min_tps = min_tps;
    max_tps = max_tps;
    timestamps = replicate capacity 0;
    head = 0;
    count = 0;
  }

  -- `clock` is the time that stands in for a tick without one.
  unfoldable pub velocity_on_tick : TickVelocityFilter F → ℕ → ℕ → TickVelocityFilter F
  velocity_on_tick f timestamp_ns clock = record f {
    timestamps = set f.timestamps f.head (if timestamp_ns == 0 then clock else timestamp_ns);
    head = (f.head + 1) % capacity;
    count = if ltb f.count capacity then suc f.count else f.count;
  }

  unfoldable pub ticks_in_window : TickVelocityFilter F → ℕ → ℕ
  ticks_in_window f now =
      walk f.timestamps f.window_duration now f.count ((f.head + capacity - 1) % capacity)

module _ {F : Type 0} ⦃fl : Float F⦄ where
  unfoldable pub current_tps : TickVelocityFilter F → ℕ → F
  current_tps f now =
      let window_seconds = lit f.window_duration /F lit 1_000_000_000 in
      if ltb f.count 2
      then lit 0
      else if window_seconds ≤F lit 0
      then lit 0
      else lit (ticks_in_window f now) /F window_seconds

  unfoldable pub velocity_allow : TickVelocityFilter F → ℕ → ℕ → Bool
  velocity_allow f timestamp_ns clock =
      let tps = current_tps f (if timestamp_ns == 0 then clock else timestamp_ns) in
      if (f.min_tps >F lit 0) && (tps <F f.min_tps)
      then false
      else if (f.max_tps >F lit 0) && (tps >F f.max_tps)
      then false
      else true
