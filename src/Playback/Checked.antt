-- ===== src/Playback/Checked.antt =====
-- The loop of src/k5vision/media/playback.py: the tests that a packet and a completed run passed.
use k5_vision.Prelude.{
  ℕ, ◌+◌, ◌≤◌, ◌≡◌, refl, sym, ◌∙◌, ap, subst, true, List, [], ◌∷◌, arith, length, ok, raise,
  Result-cases, All, inl, inr,
}
use k5_vision.Rtp.{Bytes, payload_type, timestamp}
use k5_vision.Generator.{Run, yields, returns, raises, out_of_fuel, items, ending, Ending}
use k5_vision.Recording.Sink.{ErrorCode}
use k5_vision.Recording.Reader.{Reader}
use k5_vision.Recording.Soundness.{payload_total}
use k5_vision.Playback.Boundary.{
  State, Playback, PlaybackError, validate_packet, validate_progress, validate_complete,
  check_packet, count_packet, finish, loop,
}

pub record IsChecked (pb : Playback) (packet : Bytes) (r : Reader) (pb' : Playback) : Type 0 where
  pub counted : pb' ≡ count_packet pb packet r
  pub typed : payload_type packet ≡ pb.descriptor.payload_type
  pub origin : pb.packets ≡ 0 → timestamp packet ≡ pb.descriptor.rtp_timestamp_origin
  pub below : pb.packets + 1 ≤ pb.descriptor.packet_count
  pub payload_below : pb.payload_bytes + length packet ≤ pb.descriptor.payload_bytes

check_packet-IsChecked :
    (pb : Playback) (packet : Bytes) (r : Reader) (pb' : Playback)
    → check_packet pb packet r ≡ ok pb'
    → IsChecked pb packet r pb'
unfolding check_packet validate_packet validate_progress
check_packet-IsChecked pb packet r pb' h = ground arith

module _ (pb : Playback) (packet : Bytes) (r : Reader) (t : Run Reader ErrorCode Bytes) where
  loop-ok :
      {pb' : Playback}
      → check_packet pb packet r ≡ ok pb'
      → loop pb (yields packet r t) ≡ yields packet pb' (loop pb' t)
  unfolding loop
  loop-ok h = rw (h, loop)

  loop-raise :
      {e : PlaybackError} {pb' : Playback}
      → check_packet pb packet r ≡ raise (e, pb')
      → loop pb (yields packet r t) ≡ raises e pb'
  unfolding loop
  loop-raise h = rw (h, loop)

  pub loop-cases {κ} :
      (P : Run Playback PlaybackError Bytes → Type κ)
      → ((pb' : Playback) → IsChecked pb packet r pb' → P (yields packet pb' (loop pb' t)))
      → ((e : PlaybackError) (pb' : Playback) → P (raises e pb'))
      → P (loop pb (yields packet r t))
  loop-cases P on_packet on_error = elim (Result-cases (check_packet pb packet r)) [
    | inr ((e, pb'), failed) ↦ rw (loop-raise failed) (on_error e pb')
    | inl (pb', checked) ↦
        rw (loop-ok checked) (on_packet pb' (check_packet-IsChecked pb packet r pb' checked))
  ]

finish-items : (pb : Playback) (r : Reader) → items (finish pb r) ≡ []
unfolding finish
finish-items pb r = ground arith

-- The end of a run is an end: nothing more is handed out.
pub finish-cases {κ} :
    (P : Run Playback PlaybackError Bytes → Type κ) (pb : Playback) (r : Reader)
    → ((s : Playback) → P (returns s))
    → ((e : PlaybackError) (s : Playback) → P (raises e s))
    → P (finish pb r)
unfolding finish
finish-cases P pb r on_return on_raise =
    elim (Result-cases (validate_complete (record pb { reader = r; file_bytes = r.file_bytes }))) [
      | inl (_, h) ↦ subst P (sym (rw (h, finish) refl)) (
          on_return (record pb {
            reader = r;
            file_bytes = r.file_bytes;
            descriptor_verified = true;
            state = State.complete;
          }))
      | inr (e, h) ↦
          subst P (sym (rw (h, finish) refl))
            (on_raise e (record pb { reader = r; file_bytes = r.file_bytes; state = State.failed }))
    ]

-- Every packet that comes through is one of the reader's.
pub loop-All {κ} :
    (P : Bytes → Type κ) (pb : Playback) (t : Run Reader ErrorCode Bytes)
    → All P (items t)
    → All P (items (loop pb t))
loop-All P pb (yields packet r t) h =
    loop-cases pb packet r t (λ x. All P (items x)) (λ pb' s. (h.0, loop-All P pb' t h.1))
      (λ e pb'. tt)
loop-All P pb (returns r) h = unfold loop in rw (finish-items pb r) tt
loop-All P pb (raises e r) h = unfold loop in tt
loop-All P pb out_of_fuel h = unfold loop in tt

-- Every packet that comes through has the descriptor's payload type.
pub loop-payload_type :
    (pb : Playback) (t : Run Reader ErrorCode Bytes)
    → All (λ p. payload_type p ≡ pb.descriptor.payload_type) (items (loop pb t))
loop-payload_type pb (yields packet r t) =
    loop-cases pb packet r t (λ x. All (λ p. payload_type p ≡ pb.descriptor.payload_type) (items x))
      (λ pb' s. (
        s.typed,
        subst (λ d. All (λ p. payload_type p ≡ d.payload_type) (items (loop pb' t)))
            (ap (λ (x : Playback). x.descriptor) s.counted) (loop-payload_type pb' t),
      ))
      (λ e pb'. tt)
loop-payload_type pb (returns r) = unfold loop in rw (finish-items pb r) tt
loop-payload_type pb (raises e r) = unfold loop in tt
loop-payload_type pb out_of_fuel = unfold loop in tt

-- The first packet, if there is one, has this timestamp.
abbrev pub StartsAt : ℕ → List Bytes → Type 0
StartsAt origin [] = Unit
StartsAt origin (p ∷ ps) = timestamp p ≡ origin

pub loop-StartsAt :
    (pb : Playback) (t : Run Reader ErrorCode Bytes)
    → pb.packets ≡ 0
    → StartsAt pb.descriptor.rtp_timestamp_origin (items (loop pb t))
loop-StartsAt pb (yields packet r t) h =
    loop-cases pb packet r t (λ x. StartsAt pb.descriptor.rtp_timestamp_origin (items x))
      (λ pb' s. s.origin h) (λ e pb'. tt)
loop-StartsAt pb (returns r) h = unfold loop in rw (finish-items pb r) tt
loop-StartsAt pb (raises e r) h = unfold loop in tt
loop-StartsAt pb out_of_fuel h = unfold loop in tt

-- A completed run: every packet of the reader came through, the counts are the descriptor's, and
-- the reader completed too.
pub record IsComplete (pb : Playback) (t : Run Reader ErrorCode Bytes) (s : Playback) : Type 0 where
  pub verified : s.descriptor_verified ≡ true
  pub completed : s.state ≡ State.complete
  pub all_items : items (loop pb t) ≡ items t
  pub packets : pb.packets + length (items t) ≡ pb.descriptor.packet_count
  pub payload : pb.payload_bytes + payload_total (items t) ≡ pb.descriptor.payload_bytes
  pub file_bytes : s.reader.file_bytes ≡ pb.descriptor.file_bytes
  pub read : ending t ≡ Ending.returned s.reader

finish-returned :
    (pb : Playback) (r : Reader) (s : Playback)
    → ending (finish pb r) ≡ Ending.returned s
    → (s.descriptor_verified ≡ true)
      × (s.state ≡ State.complete)
      × (s.reader ≡ r)
      × (pb.packets ≡ pb.descriptor.packet_count)
      × (pb.payload_bytes ≡ pb.descriptor.payload_bytes)
      × (r.file_bytes ≡ pb.descriptor.file_bytes)
unfolding finish validate_complete
finish-returned pb r s h = ground arith

IsComplete-cons :
    (pb : Playback) (packet : Bytes) (r : Reader) (t : Run Reader ErrorCode Bytes) (s : Playback)
    → let pb' = count_packet pb packet r in
      loop pb (yields packet r t) ≡ yields packet pb' (loop pb' t)
      → IsComplete pb' t s
      → IsComplete pb (yields packet r t) s
IsComplete-cons pb packet r t s o ih = record {
  verified = ih.verified;
  completed = ih.completed;
  all_items = ap items o ∙ ap (packet ∷◌) ih.all_items;
  packets = omega (arith, ih.packets);
  payload = omega (arith, ih.payload);
  file_bytes = ih.file_bytes;
  read = ih.read;
}

pub loop-IsComplete :
    (pb : Playback) (t : Run Reader ErrorCode Bytes) (s : Playback)
    → ending (loop pb t) ≡ Ending.returned s
    → IsComplete pb t s
loop-IsComplete pb (yields packet r t) s h = elim (Result-cases (check_packet pb packet r)) [
  | inr ((e, pb'), failed) ↦ absurd (cc (sym (ap ending (loop-raise pb packet r t failed)) ∙ h))
  | inl (pb', checked) ↦
      let o = loop-ok pb packet r t checked in
      let c = check_packet-IsChecked pb packet r pb' checked in
      IsComplete-cons pb packet r t s (o ∙ ap (λ x. yields packet x (loop x t)) c.counted)
        (subst (λ x. IsComplete x t s) c.counted (loop-IsComplete pb' t s (sym (ap ending o) ∙ h)))
]
loop-IsComplete pb (returns r) s h =
    let (verified, completed, same, p, b, f) = finish-returned pb r s (unfold loop in h) in
    record {
      verified = verified;
      completed = completed;
      all_items = unfold loop in finish-items pb r;
      packets = omega arith;
      payload = omega arith;
      file_bytes = ap (λ (x : Reader). x.file_bytes) same ∙ f;
      read = ap Ending.returned (sym same);
    }
loop-IsComplete pb (raises e r) s h = absurd (unfold loop in cc h)
loop-IsComplete pb out_of_fuel s h = absurd (unfold loop in cc h)
