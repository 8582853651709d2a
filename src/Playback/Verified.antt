-- ===== src/Playback/Verified.antt =====
-- What a run of the schedule that completes says of the recording file.
use k5_vision.Prelude.{
  ℕ, ◌+◌, ◌*◌, ◌≡◌, ◌≢◌, refl, sym, ◌∙◌, ap, subst, Bool, List, [], ◌∷◌, ◌++◌, arith, Option, none,
  some, length, All, length-append,
}
use k5_vision.Rtp.{Bytes, IsBytes, payload_type}
use k5_vision.Generator.{Ending, items, ending}
use k5_vision.Recording.Format.{magic, frames, frame, length-frame}
use k5_vision.Recording.Sink.{Limits}
use k5_vision.Recording.Soundness.{IsValid, payload_total}
use k5_vision.Recording.Reader.{File, Reader, new_reader}
use k5_vision.Recording.Reader
use k5_vision.Recording.Authentic.{iter_packets-Vouches}
use k5_vision.Recording.RoundTrip.{iter_packets_total}
use k5_vision.Playback.Descriptor.{Descriptor}
use k5_vision.Playback.Boundary.{State, Playback}
use k5_vision.Playback.Boundary
use k5_vision.Playback.Checked.{StartsAt, loop-IsComplete, loop-payload_type, loop-StartsAt}
use k5_vision.Playback.Timeline.{Timeline}
use k5_vision.Playback.Timeline
use k5_vision.Playback.Navigation.{Navigator}
use k5_vision.Playback.Navigation
use k5_vision.Playback.Window.{Window}
use k5_vision.Playback.Window
use k5_vision.Playback.Schedule.{Schedule, PlaybackRate}
use k5_vision.Playback.Schedule
use k5_vision.Playback.Opening.{
  IsCreated, init-IsCreated, schedule_opens, window_opens, nav_opens, timeline_opens,
  playback_opens,
}
use k5_vision.Playback.Completion.{
  boundary-Through, timeline-Through, navigator-Through, window-Through, schedule-Through,
}

-- The file is the one that the descriptor describes: the magic and the frames of these packets,
-- as many and as long as it says, of its payload type, and starting at its timestamp.
pub record Describes (crc32 : Bytes → ℕ) (d : Descriptor) (limits : Limits) (f : File)
    (packets : List Bytes) : Type 0 where
  pub content : f.bytes ≡ magic ++ frames crc32 packets
  pub valid : All (IsValid limits) packets
  pub typed : All (λ p. payload_type p ≡ d.payload_type) packets
  pub start : StartsAt d.rtp_timestamp_origin packets
  pub count : length packets ≡ d.packet_count
  pub payload : payload_total packets ≡ d.payload_bytes
  pub size : length f.bytes ≡ d.file_bytes

length-frames :
    (crc32 : Bytes → ℕ) (ps : List Bytes)
    → length (frames crc32 ps) ≡ 8 * length ps + payload_total ps
unfolding frames
length-frames crc32 [] = refl
length-frames crc32 (p ∷ ps) = omega (
  arith,
  length-append (frame crc32 p) (frames crc32 ps),
  length-frame crc32 p,
  length-frames crc32 ps,
)

module _ (crc32 : Bytes → ℕ) (d : Descriptor) (closes : Bool) (sc : Schedule) (file : Option File)
    (c : IsCreated d closes sc) where
  -- The four layers over playback, started.
  through_schedule :
      let pb = sc.window.navigator.timeline.playback in
      (ending (Schedule.iter_packets crc32 sc file) ≡ Ending.stuck
        → ending (Boundary.iter_packets crc32 pb file) ≡ Ending.stuck)
      × ((s : Schedule)
          → ending (Schedule.iter_packets crc32 sc file) ≡ Ending.returned s
          → ending (Boundary.iter_packets crc32 pb file)
            ≡ Ending.returned s.window.navigator.timeline.playback)
  through_schedule =
      let w = sc.window in
      let nav = w.navigator in
      let tl = nav.timeline in
      let pbs = Boundary.iter_packets crc32 tl.playback file in
      let t = timeline-Through (record tl { state = State.reading }) Timeline.start_clock pbs in
      let tls = Timeline.loop (record tl { state = State.reading }) Timeline.start_clock pbs in
      let n = navigator-Through (record nav { state = Navigation.State.scanning }) tls in
      let navs = Navigation.loop (record nav { state = Navigation.State.scanning }) tls in
      let v = window-Through (record w { state = State.reading }) navs in
      let ws = Window.loop (record w { state = State.reading }) navs in
      let s = schedule-Through (record sc { state = State.reading }) none ws in
      rw
        (
          schedule_opens crc32 file sc c.schedule,
          window_opens crc32 file w c.window,
          nav_opens crc32 file nav c.navigator,
          timeline_opens crc32 file tl c.timeline,
        )
        (
          (λ h. t.stuck (n.stuck (v.stuck (s.stuck h)))),
          (λ x h.
              t.returned x.window.navigator.timeline
                (n.returned x.window.navigator (v.returned x.window (s.returned x h)))),
        )

module _ (crc32 : Bytes → ℕ) (d : Descriptor) (start_ms end_ms : ℕ) (rate : PlaybackRate)
    (max_packets : ℕ) (closes : Bool) (sc : Schedule)
    (made : Schedule.init d start_ms end_ms rate max_packets closes ≡ some sc) where
  abbrev limits_of : Limits
  limits_of = sc.window.navigator.timeline.playback.reader.limits

  created : IsCreated d closes sc
  created = init-IsCreated d start_ms end_ms rate max_packets closes sc made

  playback_ends :
      (file : Option File)
      → ending (Boundary.iter_packets crc32 sc.window.navigator.timeline.playback file)
        ≢ Ending.stuck
  playback_ends file h =
      let pb = sc.window.navigator.timeline.playback in
      let b =
        boundary-Through (record pb { state = State.reading })
          (Reader.iter_packets crc32 pb.reader file) in
      let stuck = b.stuck (sym (ap ending (playback_opens crc32 file pb created.playback)) ∙ h) in
      iter_packets_total crc32 limits_of closes file
        (subst (λ r. ending (Reader.iter_packets crc32 r file) ≡ Ending.stuck) created.reader stuck)

  -- The generator of a new schedule comes to an end, whatever the file is: it returns or raises,
  -- the fuel of the model is enough.
  pub schedule_total :
      (file : Option File) → ending (Schedule.iter_packets crc32 sc file) ≢ Ending.stuck
  schedule_total file h = playback_ends file ((through_schedule crc32 d closes sc file created).0 h)

  playback-Describes :
      (f : File) (s : Playback)
      → IsBytes f.bytes
      → let pb = sc.window.navigator.timeline.playback in
        ending (Boundary.iter_packets crc32 pb (some f)) ≡ Ending.returned s
        → Describes crc32 d limits_of f
            (items (Reader.iter_packets crc32 (new_reader limits_of closes) (some f)))
  playback-Describes f s small h =
      let pb = sc.window.navigator.timeline.playback in
      let started = record pb { state = State.reading } in
      let below = Reader.iter_packets crc32 pb.reader (some f) in
      let same : below ≡ Reader.iter_packets crc32 (new_reader limits_of closes) (some f) =
        ap (λ r. Reader.iter_packets crc32 r (some f)) created.reader in
      let k =
        loop-IsComplete started below s
          (sym (ap ending (playback_opens crc32 (some f) pb created.playback)) ∙ h) in
      let v =
        iter_packets-Vouches crc32 limits_of closes f s.reader small
          (sym (ap ending same) ∙ k.read) in
      subst (λ t. Describes crc32 d limits_of f (items t)) same
        (subst (λ x. Describes crc32 x limits_of f (items below)) created.descriptor
          (record {
            content = v.whole_file ∙ ap (λ t. magic ++ frames crc32 (items t)) (sym same);
            valid = subst (λ t. All (IsValid limits_of) (items t)) (sym same) v.valid;
            typed =
                subst (All (λ p. payload_type p ≡ pb.descriptor.payload_type)) k.all_items
                  (loop-payload_type started below);
            start =
                subst (StartsAt pb.descriptor.rtp_timestamp_origin) k.all_items
                  (loop-StartsAt started below created.packets);
            count = omega (arith, k.packets, created.packets);
            payload = omega (arith, k.payload, created.payload_bytes);
            size =
                ap length v.whole_file
                ∙ omega (
                  arith,
                  length-frames crc32
                      (items (Reader.iter_packets crc32 (new_reader limits_of closes) (some f))),
                  v.position,
                  k.file_bytes,
                );
          }))

  -- When the run of a new schedule on a file of bytes completes, the file is the one that the
  -- descriptor describes: the magic and the frames of the packets that the reader hands out, which
  -- are valid RTP packets within the limits of playback, of the descriptor's payload type, starting
  -- at its timestamp, as many and as long as it says, in a file of the size that it says.
  pub schedule-Describes :
      (f : File) (s : Schedule)
      → IsBytes f.bytes
      → ending (Schedule.iter_packets crc32 sc (some f)) ≡ Ending.returned s
      → Describes crc32 d limits_of f
          (items (Reader.iter_packets crc32 (new_reader limits_of closes) (some f)))
  schedule-Describes f s small h =
      playback-Describes f s.window.navigator.timeline.playback small
        ((through_schedule crc32 d closes sc (some f) created).1 s h)
