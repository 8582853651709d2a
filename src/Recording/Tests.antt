-- ===== src/Recording/Tests.antt =====
-- The recording theorems at a recording of two packets.
use k5_vision.Prelude.{
  ℕ, ◌≡◌, refl, true, List, [], ◌∷◌, ◌++◌, arith, none, some, All, all, ltb, ◌≢◌,
}
use k5_vision.Rtp.{Bytes, IsBytes, from_big_endian, is_rtp_v2}
use k5_vision.Generator.{Run, Ending, items, ending}
use k5_vision.Recording.Format.{magic, frames, frame, pack_u32}
use k5_vision.Recording.Sink.{
  Limits, State, Event, ErrorCode, open_sink, write, write_open, write_record, finalize,
}
use k5_vision.Recording.Reader.{File, Reader, new_reader, iter_packets}
use k5_vision.Recording.Soundness.{IsValid}
use k5_vision.Recording.RoundTrip.{iter_packets_total, opened}
use k5_vision.Recording.Replay.{Fits, after, whole, iter_packets-frames}
use k5_vision.Recording.Authentic.{Vouches, iter_packets-Vouches}
use k5_vision.Recording.Outcome.{Call, CallOk, apply, apply_all, accepted, accepted_all}
use k5_vision.Recording.Completing.{recording_calls, apply_all-publishes}
use k5_vision.Recording.Session.{
  Visible, ReadsBack, new_sink, apply_all-Visible, apply_all-ReadsBack,
}

-- A checksum that depends on the payload.
abbrev pub sum : Bytes → ℕ
sum = from_big_endian 0

-- Two RTP packets of payload type 96, 900 ticks apart.
abbrev pub packet : Bytes
packet = 128 ∷ 96 ∷ 0 ∷ 1 ∷ 0 ∷ 0 ∷ 0 ∷ 0 ∷ 0 ∷ 0 ∷ 0 ∷ 7 ∷ []

abbrev pub second : Bytes
second = 128 ∷ 96 ∷ 0 ∷ 2 ∷ 0 ∷ 0 ∷ 3 ∷ 132 ∷ 0 ∷ 0 ∷ 0 ∷ 7 ∷ 255 ∷ []

abbrev pub packets : List Bytes
packets = packet ∷ second ∷ []

abbrev pub limits : Limits
limits = record { max_packets = 2; max_payload_bytes = 25; max_packet_bytes = 16 }

abbrev pub recorded : Bytes
recorded = magic ++ frames sum packets

pub IsBytes-of_all : (bs : Bytes) → all (λ b. ltb b 256) bs ≡ true → IsBytes bs
IsBytes-of_all [] h = tt
IsBytes-of_all (b ∷ bs) h = (ground arith, IsBytes-of_all bs (ground arith))

packet-IsBytes : IsBytes packet
packet-IsBytes = IsBytes-of_all packet refl

second-IsBytes : IsBytes second
second-IsBytes = IsBytes-of_all second refl

pub recorded-IsBytes : IsBytes recorded
unfolding frames frame pack_u32
recorded-IsBytes = IsBytes-of_all recorded refl

abbrev calls : List Call
calls =
    Call.open_call Event.done
    ∷ Call.write_call packet Event.done
    ∷ Call.write_call second Event.done
    ∷ Call.write_call packet Event.done
    ∷ []

abbrev finished : List Call
finished =
    Call.open_call Event.done
    ∷ Call.write_call packet Event.done
    ∷ Call.write_call second Event.done
    ∷ Call.finalize_call Event.done
    ∷ []

calls-CallOk : All CallOk calls
calls-CallOk = (tt, ((packet-IsBytes, tt), ((second-IsBytes, tt), ((packet-IsBytes, tt), tt))))

finished-CallOk : All CallOk finished
finished-CallOk = (tt, ((packet-IsBytes, tt), ((second-IsBytes, tt), (tt, tt))))

finished-published : (apply_all sum (new_sink limits none) finished).published ≡ some recorded
unfolding apply_all apply open_sink write write_open write_record finalize is_rtp_v2 frames frame
    pack_u32
finished-published = refl

-- The third packet is over the limits, which fails the sink.
apply_all-Visible_example :
    Visible sum limits none packets
      (apply_all sum (new_sink limits none) calls).state
      (apply_all sum (new_sink limits none) calls).published
unfolding accepted_all accepted apply_all apply open_sink write write_open write_record finalize
    is_rtp_v2
apply_all-Visible_example = apply_all-Visible sum limits none calls calls-CallOk

apply_all-ReadsBack_example : ReadsBack sum limits true packets recorded
unfolding accepted_all accepted apply open_sink write write_open write_record finalize is_rtp_v2
apply_all-ReadsBack_example =
    apply_all-ReadsBack sum limits true finished recorded finished-CallOk finished-published

-- A write that is cancelled a second time leaves the sink open behind a frame that is not counted:
-- the file that is then published holds three packets, where the limits admit two.
abbrev cancelled_twice : List Call
cancelled_twice =
    Call.open_call Event.done
    ∷ Call.write_call packet (Event.cancel_again 20 true true)
    ∷ Call.write_call packet Event.done
    ∷ Call.write_call second Event.done
    ∷ Call.finalize_call Event.done
    ∷ []

cancelled_twice-published :
    (apply_all sum (new_sink limits none) cancelled_twice).published
    ≡ some (magic ++ frames sum (packet ∷ packets))
unfolding apply_all apply open_sink write write_open write_record finalize is_rtp_v2 frames frame
    pack_u32
cancelled_twice-published = refl

packet-IsValid : IsValid limits packet
unfolding is_rtp_v2
packet-IsValid = record { valid = refl; small = omega arith; bytes = packet-IsBytes }

second-IsValid : IsValid limits second
unfolding is_rtp_v2
second-IsValid = record { valid = refl; small = omega arith; bytes = second-IsBytes }

packets-Fits : Fits (opened limits true) packets
packets-Fits = record {
  valid = (packet-IsValid, (second-IsValid, tt));
  room = omega arith;
  space = omega arith;
}

abbrev run_recorded : Run Reader ErrorCode Bytes
run_recorded =
    iter_packets sum (new_reader limits true) (some (whole (magic ++ frames sum packets)))

iter_packets-frames_example :
    (items run_recorded ≡ packets)
    × (ending run_recorded
        ≡ Ending.returned (record (after (opened limits true) packets) { state = State.complete }))
iter_packets-frames_example = iter_packets-frames sum limits true packets packets-Fits

abbrev file : File
file = whole recorded

abbrev reader_done : Reader
reader_done = record (after (opened limits true) packets) { state = State.complete }

reader_returned :
    ending (iter_packets sum (new_reader limits true) (some file)) ≡ Ending.returned reader_done
reader_returned = (iter_packets-frames sum limits true packets packets-Fits).1

iter_packets-Vouches_example :
    Vouches sum limits file (iter_packets sum (new_reader limits true) (some file)) reader_done
iter_packets-Vouches_example =
    iter_packets-Vouches sum limits true file reader_done recorded-IsBytes reader_returned

iter_packets_total_example :
    ending (iter_packets sum (new_reader limits true) (some file)) ≢ Ending.stuck
iter_packets_total_example = iter_packets_total sum limits true (some file)

apply_all-publishes_example :
    ((apply_all sum (new_sink limits none) (recording_calls packets)).published
      ≡ some (magic ++ frames sum packets))
    × ((apply_all sum (new_sink limits none) (recording_calls packets)).state ≡ State.finalized)
apply_all-publishes_example =
    apply_all-publishes sum limits packets (packet-IsValid, (second-IsValid, tt)) (omega arith)
      (omega arith)
