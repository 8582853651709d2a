-- ===== src/Playback/Timing.antt =====
-- The loop of src/k5vision/media/playback_timeline.py: order, numbering and times of its packets.
use k5_vision.Prelude.{
  ℕ, ◌+◌, ◌*◌, ◌/◌, ◌%◌, ◌≤◌, ◌<◌, ◌≡◌, some, List, [], ◌∷◌, map, arith, AscendingFrom, div_mono,
  Result-cases, inl, inr, ok, raise,
}
use k5_vision.Rtp.{Bytes, timestamp}
use k5_vision.Generator.{Run, yields, returns, raises, out_of_fuel, items}
use k5_vision.Recording.Format.{u32_mod}
use k5_vision.Playback.Boundary.{Playback, PlaybackError}
use k5_vision.Playback.Timeline.{
  Timeline, TimelineError, TimedPacket, Clock, advance, ticks_since, time_packet, loop,
}

-- One turn, inverted: the packet is numbered by the count, and the clock has moved on.
pub record IsTimed (tl : Timeline) (c : Clock) (packet : Bytes) (pb : Playback) (item : TimedPacket)
    (tl' : Timeline) (c' : Clock) : Type 0 where
  pub numbered : item.ordinal ≡ tl.packets
  pub counted : tl'.packets ≡ tl.packets + 1
  pub same_descriptor : tl'.descriptor ≡ tl.descriptor
  pub same_state : tl'.state ≡ tl.state
  pub inner : tl'.playback ≡ pb
  pub stamped : item.rtp_timestamp ≡ timestamp packet
  pub same_packet : item.packet ≡ packet
  pub remembered : c'.previous ≡ some (timestamp packet)
  pub later : c.elapsed_ticks ≤ c'.elapsed_ticks
  pub scaled : item.elapsed_ms ≡ (c'.elapsed_ticks * 1000) / tl.descriptor.clock_rate_hz

time_packet-IsTimed :
    (tl : Timeline) (c : Clock) (packet : Bytes) (pb : Playback) (item : TimedPacket)
    (tl' : Timeline) (c' : Clock)
    → time_packet tl c packet pb ≡ ok (item, tl', c')
    → IsTimed tl c packet pb item tl' c'
unfolding time_packet advance
time_packet-IsTimed tl c packet pb item tl' c' h = ground arith

module _ (tl : Timeline) (c : Clock) (packet : Bytes) (pb : Playback)
    (t : Run Playback PlaybackError Bytes) where
  -- The loop by the outcome of its turn.
  loop-ok :
      {item : TimedPacket} {tl' : Timeline} {c' : Clock}
      → time_packet tl c packet pb ≡ ok (item, tl', c')
      → loop tl c (yields packet pb t) ≡ yields item tl' (loop tl' c' t)
  unfolding loop
  loop-ok h = rw (h, loop)

  loop-raise :
      {e : TimelineError} {tl' : Timeline}
      → time_packet tl c packet pb ≡ raise (e, tl')
      → loop tl c (yields packet pb t) ≡ raises e tl'
  unfolding loop
  loop-raise h = rw (h, loop)

  -- The four ways that a proof goes: what holds of both ends of a turn holds of the loop.
  pub loop-cases {κ} :
      (P : Run Timeline TimelineError TimedPacket → Type κ)
      → ((item : TimedPacket) (tl' : Timeline) (c' : Clock)
          → IsTimed tl c packet pb item tl' c'
          → time_packet tl c packet pb ≡ ok (item, tl', c')
          → P (yields item tl' (loop tl' c' t)))
      → ((e : TimelineError) (tl' : Timeline) → P (raises e tl'))
      → P (loop tl c (yields packet pb t))
  loop-cases P on_item on_error = elim (Result-cases (time_packet tl c packet pb)) [
    | inr ((e, tl'), failed) ↦ rw (loop-raise failed) (on_error e tl')
    | inl ((item, tl', c'), timed) ↦
        rw (loop-ok timed)
          (on_item item tl' c' (time_packet-IsTimed tl c packet pb item tl' c' timed) timed)
  ]

-- Elapsed times ascend, from what the clock has.
pub loop-AscendingFrom :
    (tl : Timeline) (c : Clock) (t : Run Playback PlaybackError Bytes)
    → AscendingFrom
        ((c.elapsed_ticks * 1000) / tl.descriptor.clock_rate_hz)
        (map (λ i. i.elapsed_ms) (items (loop tl c t)))
loop-AscendingFrom tl c (yields packet pb t) =
    loop-cases tl c packet pb t
      (λ r.
        AscendingFrom ((c.elapsed_ticks * 1000) / tl.descriptor.clock_rate_hz)
          (map (λ i. i.elapsed_ms) (items r)))
      (λ item tl' c' s _. (
        rw s.scaled (div_mono _ _ _ (omega arith)),
        rw (s.scaled, ← s.same_descriptor) (loop-AscendingFrom tl' c' t),
      ))
      (λ e tl'. tt)
loop-AscendingFrom tl c (returns pb) = unfold loop in tt
loop-AscendingFrom tl c (raises e pb) = unfold loop in tt
loop-AscendingFrom tl c out_of_fuel = unfold loop in tt

-- Numbered from `n` on.
abbrev pub NumberedFrom : ℕ → List TimedPacket → Type 0
NumberedFrom n [] = Unit
NumberedFrom n (i ∷ is) = (i.ordinal ≡ n) × NumberedFrom (n + 1) is

loop-NumberedFrom :
    (tl : Timeline) (c : Clock) (t : Run Playback PlaybackError Bytes)
    → NumberedFrom tl.packets (items (loop tl c t))
loop-NumberedFrom tl c (yields packet pb t) =
    loop-cases tl c packet pb t (λ r. NumberedFrom tl.packets (items r))
      (λ item tl' c' s _. (s.numbered, rw (← s.counted) (loop-NumberedFrom tl' c' t))) (λ e tl'. tt)
loop-NumberedFrom tl c (returns pb) = unfold loop in tt
loop-NumberedFrom tl c (raises e pb) = unfold loop in tt
loop-NumberedFrom tl c out_of_fuel = unfold loop in tt

-- Each time is a count of ticks in milliseconds, rounded down, and each count is that of the packet
-- before and the forward distance of the timestamps modulo 2 ^ 32, which is below half of it.
abbrev pub TimedFrom : (rate ticks previous : ℕ) → List TimedPacket → Type 0
TimedFrom rate ticks previous [] = Unit
TimedFrom rate ticks previous (i ∷ is) =
    (step : ℕ) × (step < 2_147_483_648)
    × ((previous + step) % u32_mod ≡ i.rtp_timestamp)
    × (i.rtp_timestamp ≡ timestamp i.packet)
    × (i.elapsed_ms ≡ ((ticks + step) * 1000) / rate)
    × TimedFrom rate (ticks + step) i.rtp_timestamp is

-- One turn behind a packet moves the clock by the forward distance.
pub time_packet-step :
    (tl : Timeline) (c : Clock) (last : ℕ) (packet : Bytes) (pb : Playback) (item : TimedPacket)
    (tl' : Timeline) (c' : Clock)
    → timestamp packet < u32_mod
    → last < u32_mod
    → c.previous ≡ some last
    → time_packet tl c packet pb ≡ ok (item, tl', c')
    → let step = ticks_since last (timestamp packet) in
      (step < 2_147_483_648)
      × ((last + step) % u32_mod ≡ timestamp packet)
      × (c'.elapsed_ticks ≡ c.elapsed_ticks + step)
unfolding time_packet advance
time_packet-step tl c last packet pb item tl' c' small below known h =
    (ground arith, omega arith, ground arith)
