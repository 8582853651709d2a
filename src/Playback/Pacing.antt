-- ===== src/Playback/Pacing.antt =====
-- The due times of src/k5vision/media/playback_schedule.py.
use k5_vision.Prelude.{
  ℕ, ◌+◌, ◌-◌, ◌*◌, ◌≤◌, ◌<◌, ◌≡◌, refl, Bool, Option, none, some, List, [], ◌∷◌, map, arith,
  AscendingFrom, div_mono, All,
}
use k5_vision.Rtp.{Bytes}
use k5_vision.Generator.{Run, yields, returns, raises, out_of_fuel, items}
use k5_vision.Recording.Reader.{File}
use k5_vision.Playback.Descriptor.{Descriptor}
use k5_vision.Playback.Boundary.{State}
use k5_vision.Playback.Timeline.{TimedPacket}
use k5_vision.Playback.Window.{Window, WindowError}
use k5_vision.Playback.Window
use k5_vision.Playback.Selection.{window-AscendingFrom}
use k5_vision.Playback.Schedule.{
  PlaybackRate, rate_ratio, Schedule, ScheduledPacket, due_after, count_item, loop, init,
  iter_packets,
}

pub due_after_mono : (rate : PlaybackRate) (a b : ℕ) → a ≤ b → due_after rate a ≤ due_after rate b
unfolding due_after
due_after_mono rate a b h = div_mono _ _ _ (grind arith)

-- `due` is the distance from the origin divided by the rate, rounded down.
pub record IsPaced (rate : PlaybackRate) (origin : ℕ) (item : ScheduledPacket) : Type 0 where
  pub behind_origin : origin ≤ item.source_elapsed_ms
  pub not_late :
      item.due_ms * (rate_ratio rate).0 ≤ (item.source_elapsed_ms - origin) * (rate_ratio rate).1
  pub not_early :
      (item.source_elapsed_ms - origin) * (rate_ratio rate).1
      < (item.due_ms + 1) * (rate_ratio rate).0

due_after-bounds :
    (rate : PlaybackRate) (delta : ℕ)
    → (due_after rate delta * (rate_ratio rate).0 ≤ delta * (rate_ratio rate).1)
      × (delta * (rate_ratio rate).1 < (due_after rate delta + 1) * (rate_ratio rate).0)
unfolding due_after
due_after-bounds PlaybackRate.quarter d = (omega arith, omega arith)
due_after-bounds PlaybackRate.half d = (omega arith, omega arith)
due_after-bounds PlaybackRate.normal d = (omega arith, omega arith)
due_after-bounds PlaybackRate.double d = (omega arith, omega arith)
due_after-bounds PlaybackRate.quadruple d = (omega arith, omega arith)
due_after-bounds PlaybackRate.octuple d = (omega arith, omega arith)
due_after-bounds PlaybackRate.sixteen d = (omega arith, omega arith)

loop-due_ms :
    (origin : ℕ) (sc : Schedule) (lo : ℕ) (t : Run Window WindowError TimedPacket)
    → AscendingFrom lo (map (λ i. i.elapsed_ms) (items t))
    → AscendingFrom
        (due_after sc.rate (lo - origin))
        (map (λ i. i.due_ms) (items (loop sc (some origin) t)))
unfolding loop
loop-due_ms origin sc lo (yields item w t) a = (
  due_after_mono sc.rate (lo - origin) (item.elapsed_ms - origin) (omega arith),
  loop-due_ms origin (count_item sc origin item w) item.elapsed_ms t a.1,
)
loop-due_ms origin sc lo (returns w) a = tt
loop-due_ms origin sc lo (raises e w) a = tt
loop-due_ms origin sc lo out_of_fuel a = tt

loop-IsPaced :
    (origin : ℕ) (sc : Schedule) (lo : ℕ) (t : Run Window WindowError TimedPacket)
    → origin ≤ lo
    → AscendingFrom lo (map (λ i. i.elapsed_ms) (items t))
    → All (IsPaced sc.rate origin) (items (loop sc (some origin) t))
unfolding loop
loop-IsPaced origin sc lo (yields item w t) h a =
    let b = due_after-bounds sc.rate (item.elapsed_ms - origin) in
    (
      record { behind_origin = omega arith; not_late = b.0; not_early = b.1 },
      loop-IsPaced origin (count_item sc origin item w) item.elapsed_ms t (omega arith) a.1,
    )
loop-IsPaced origin sc lo (returns w) h a = tt
loop-IsPaced origin sc lo (raises e w) h a = tt
loop-IsPaced origin sc lo out_of_fuel h a = tt

abbrev pub first_due : List ScheduledPacket → ℕ
first_due [] = 0
first_due (i ∷ _) = i.due_ms

-- The source time of the first packet, which is the origin of the due times.
abbrev pub first_time : List ScheduledPacket → ℕ
first_time [] = 0
first_time (i ∷ _) = i.source_elapsed_ms

-- The first packet is due at once, the due times ascend, and each is paced from the first.
pub record IsSchedule (rate : PlaybackRate) (items' : List ScheduledPacket) : Type 0 where
  pub starts_now : first_due items' ≡ 0
  pub ascends : AscendingFrom 0 (map (λ i. i.due_ms) items')
  pub paced : All (IsPaced rate (first_time items')) items'

due_after-zero : (rate : PlaybackRate) (a : ℕ) → due_after rate (a - a) ≡ 0
unfolding due_after
due_after-zero PlaybackRate.quarter a = omega arith
due_after-zero PlaybackRate.half a = omega arith
due_after-zero PlaybackRate.normal a = omega arith
due_after-zero PlaybackRate.double a = omega arith
due_after-zero PlaybackRate.quadruple a = omega arith
due_after-zero PlaybackRate.octuple a = omega arith
due_after-zero PlaybackRate.sixteen a = omega arith

loop-IsSchedule :
    (sc : Schedule) (lo : ℕ) (t : Run Window WindowError TimedPacket)
    → AscendingFrom lo (map (λ i. i.elapsed_ms) (items t))
    → IsSchedule sc.rate (items (loop sc none t))
unfolding loop
loop-IsSchedule sc lo (yields item w t) a =
    let origin = item.elapsed_ms in
    let rest = count_item sc origin item w in
    let b = due_after-bounds sc.rate (origin - origin) in
    record {
      starts_now = due_after-zero sc.rate origin;
      ascends = (omega arith, loop-due_ms origin rest origin t a.1);
      paced = (
        record { behind_origin = omega arith; not_late = b.0; not_early = b.1 },
        loop-IsPaced origin rest origin t (omega arith) a.1,
      );
    }
loop-IsSchedule sc lo (returns w) a = record { starts_now = refl; ascends = tt; paced = tt }
loop-IsSchedule sc lo (raises e w) a = record { starts_now = refl; ascends = tt; paced = tt }
loop-IsSchedule sc lo out_of_fuel a = record { starts_now = refl; ascends = tt; paced = tt }

init-window :
    (d : Descriptor) (start_ms end_ms : ℕ) (rate : PlaybackRate) (max_packets : ℕ) (closes : Bool)
    {sc : Schedule}
    → init d start_ms end_ms rate max_packets closes ≡ some sc
    → (Window.init d start_ms end_ms max_packets closes ≡ some sc.window)
      × (sc.rate ≡ rate)
      × (sc.state ≡ State.created)
unfolding init
init-window d start_ms end_ms rate max_packets closes h = ground arith

-- A schedule that was made for a window is a schedule at its rate, whatever the file holds: the
-- first packet is due at once, due times ascend, and each is the distance from the first packet
-- in source time, scaled by the rate and rounded down.
pub iter_packets-IsSchedule :
    (crc32 : Bytes → ℕ) (file : Option File) (d : Descriptor) (start_ms end_ms : ℕ)
    (rate : PlaybackRate) (max_packets : ℕ) (closes : Bool) (sc : Schedule)
    → init d start_ms end_ms rate max_packets closes ≡ some sc
    → IsSchedule rate (items (iter_packets crc32 sc file))
unfolding iter_packets
iter_packets-IsSchedule crc32 file d start_ms end_ms rate max_packets closes sc made =
    let (window_made, r, fresh) = init-window d start_ms end_ms rate max_packets closes made in
    rw (fresh, ← r)
      (loop-IsSchedule (record sc { state = State.reading }) start_ms _
        (window-AscendingFrom crc32 file d start_ms end_ms max_packets closes sc.window
          window_made))
