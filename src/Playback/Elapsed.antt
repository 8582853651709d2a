-- ===== src/Playback/Elapsed.antt =====
-- The times of a recording against its RTP clock (src/k5vision/media/playback_timeline.py).
use k5_vision.Prelude.{
  ℕ, ◌<◌, ◌≡◌, sym, ◌∙◌, ap, subst, ◌*◌, ◌/◌, some, List, [], ◌∷◌, arith, All, ok,
}
use k5_vision.Rtp.{Bytes, timestamp}
use k5_vision.Generator.{Run, yields, returns, raises, out_of_fuel, items}
use k5_vision.Recording.Format.{u32_mod}
use k5_vision.Playback.Descriptor.{Descriptor}
use k5_vision.Playback.Boundary.{Playback, PlaybackError}
use k5_vision.Playback.Timeline.{
  Timeline, TimedPacket, Clock, start_clock, time_packet, advance, ticks_since, loop,
}
use k5_vision.Playback.Timing.{loop-cases, TimedFrom, time_packet-step}

-- The timestamp of the first packet handed out, from which times count.
abbrev pub origin_of : List TimedPacket → ℕ
origin_of [] = 0
origin_of (i ∷ is) = i.rtp_timestamp

TimedFrom-cong :
    {rate rate' ticks ticks' last last' : ℕ} (is : List TimedPacket)
    → rate ≡ rate'
    → ticks ≡ ticks'
    → last ≡ last'
    → TimedFrom rate ticks last is
    → TimedFrom rate' ticks' last' is
TimedFrom-cong {rate} {rate'} {ticks} {ticks'} {last} {last'} is e f g h =
    subst (λ x. TimedFrom x ticks' last' is) e
      (subst (λ x. TimedFrom rate x last' is) f (subst (λ x. TimedFrom rate ticks x is) g h))

known-TimedFrom :
    (last : ℕ) (tl : Timeline) (c : Clock) (t : Run Playback PlaybackError Bytes)
    → All (λ p. timestamp p < u32_mod) (items t)
    → last < u32_mod
    → c.previous ≡ some last
    → TimedFrom tl.descriptor.clock_rate_hz c.elapsed_ticks last (items (loop tl c t))
known-TimedFrom last tl c (yields packet pb t) small below known =
    loop-cases tl c packet pb t
      (λ r. TimedFrom tl.descriptor.clock_rate_hz c.elapsed_ticks last (items r))
      (λ item tl' c' s timed.
        let (near, unwraps, moved) =
          time_packet-step tl c last packet pb item tl' c' small.0 below known timed in
        let step = ticks_since last (timestamp packet) in
        let rest = known-TimedFrom (timestamp packet) tl' c' t small.1 small.0 s.remembered in
        (
          step,
          near,
          unwraps ∙ sym s.stamped,
          s.stamped ∙ ap timestamp (sym s.same_packet),
          s.scaled ∙ ap (λ n. (n * 1000) / tl.descriptor.clock_rate_hz) moved,
          TimedFrom-cong (items (loop tl' c' t))
              (ap (λ (d : Descriptor). d.clock_rate_hz) s.same_descriptor) moved (sym s.stamped)
              rest,
        ))
      (λ e tl'. tt)
known-TimedFrom last tl c (returns pb) small below known = unfold loop in tt
known-TimedFrom last tl c (raises e pb) small below known = unfold loop in tt
known-TimedFrom last tl c out_of_fuel small below known = unfold loop in tt

time_packet-first :
    (tl : Timeline) (packet : Bytes) (pb : Playback) (item : TimedPacket) (tl' : Timeline)
    (c' : Clock)
    → time_packet tl start_clock packet pb ≡ ok (item, tl', c')
    → c'.elapsed_ticks ≡ 0
unfolding time_packet advance
time_packet-first tl packet pb item tl' c' h = ground arith

-- The first packet that the timeline hands out has time zero, and the times of the others are the
-- distances from it, unwrapped: a sum of the forward distances, modulo 2 ^ 32, from each timestamp
-- to the next, each below half the range of timestamps, in milliseconds and rounded down. The
-- timestamps are those of the packets.
pub loop-TimedFrom :
    (tl : Timeline) (t : Run Playback PlaybackError Bytes)
    → All (λ p. timestamp p < u32_mod) (items t)
    → let timed = items (loop tl start_clock t) in
      TimedFrom tl.descriptor.clock_rate_hz 0 (origin_of timed) timed
loop-TimedFrom tl (yields packet pb t) small =
    let origin = timestamp packet in
    loop-cases tl start_clock packet pb t
      (λ r. TimedFrom tl.descriptor.clock_rate_hz 0 (origin_of (items r)) (items r))
      (λ item tl' c' s timed.
        let zero_ticks = time_packet-first tl packet pb item tl' c' timed in
        let rest = known-TimedFrom origin tl' c' t small.1 small.0 s.remembered in
        (
          0,
          omega arith,
          omega (arith, s.stamped, small.0),
          s.stamped ∙ ap timestamp (sym s.same_packet),
          s.scaled ∙ ap (λ n. (n * 1000) / tl.descriptor.clock_rate_hz) zero_ticks,
          TimedFrom-cong (items (loop tl' c' t))
              (ap (λ (d : Descriptor). d.clock_rate_hz) s.same_descriptor) zero_ticks
              (sym s.stamped) rest,
        ))
      (λ e tl'. tt)
loop-TimedFrom tl (returns pb) small = unfold loop in tt
loop-TimedFrom tl (raises e pb) small = unfold loop in tt
loop-TimedFrom tl out_of_fuel small = unfold loop in tt
