-- ===== src/Recording/Reader.antt =====
-- `FramedRecordingReader` of framed_recording.py. The file is what `open("rb")` gives: a sequence
-- of bytes that ends, or breaks with an `OSError`; a read of n bytes gives n or all that is left.
use k5_vision.Prelude.{
  ℕ, zero, suc, ◌+◌, ◌-◌, Bool, true, false, not, ◌&&◌, ◌||◌, Option, none, some, [], ◌∷◌, ◌++◌,
  ltb, leb, ◌==◌, if◌then◌else◌, length, take, drop, Result, ok, raise,
}
use k5_vision.Rtp.{Bytes, from_big_endian, is_rtp_v2}
use k5_vision.Generator.{Run, yields, returns, raises, out_of_fuel}
use k5_vision.Recording.Format.{magic, record_header_size, checksum}
use k5_vision.Recording.Sink.{State, ErrorCode, Limits}

pub record File : Type 0 where
  pub bytes : Bytes
  pub breaks : Bool

-- `closes` is the environment's: whether closing the file handle succeeds.
pub record Reader : Type 0 where
  pub limits : Limits
  pub closes : Bool
  pub state : State
  pub packets : ℕ
  pub payload_bytes : ℕ
  pub file_bytes : ℕ

abbrev pub new_reader : Limits → Bool → Reader
new_reader limits closes = record {
  limits = limits;
  closes = closes;
  state = State.created;
  packets = 0;
  payload_bytes = 0;
  file_bytes = 0;
}

unfoldable pub bytes_eq : Bytes → Bytes → Bool
bytes_eq [] [] = true
bytes_eq (a ∷ as') (b ∷ bs) = a == b && bytes_eq as' bs
bytes_eq _ _ = false

-- `file.read(n)`
unfoldable pub read : ℕ → File → Result ErrorCode (Bytes × File)
read n f =
    if ltb (length f.bytes) n && f.breaks
    then raise ErrorCode.io_failure
    else ok (take n f.bytes, record f { bytes = drop n f.bytes })

-- `_read_exact`: a read that gives fewer bytes is asked again for the rest, and an empty one is
-- the end of the file. Every other read gives a byte at least, which bounds the fuel; `none` is a
-- loop that is out of fuel.
unfoldable pub read_exact_loop : ℕ → ℕ → Bytes → File → Option (Result ErrorCode (Bytes × File))
read_exact_loop zero remaining chunks f = none
read_exact_loop (suc fuel) remaining chunks f = elim (remaining == 0) [
  | true ↦ some (ok (chunks, f))
  | false ↦ elim (read remaining f) [
    | raise e ↦ some (raise e)
    | ok (chunk, f') ↦ elim (length chunk == 0) [
      | true ↦ some (raise ErrorCode.truncated_record)
      | false ↦ read_exact_loop fuel (remaining - length chunk) (chunks ++ chunk) f'
    ]
  ]
]

unfoldable pub read_exact : ℕ → File → Option (Result ErrorCode (Bytes × File))
unfolding read_exact_loop
read_exact size f = read_exact_loop (suc size) size [] f

-- How one turn of the loop of `iter_packets` ends: at the end of the file, by an exception, or
-- with a packet to yield; `endless` is a `_read_exact` that is out of fuel.
pub data Turn : Type 0 where
  complete : Reader → Turn
  failed : ErrorCode → Reader → Turn
  produced : Bytes → Reader → File → Turn
  endless : Turn

module _ (crc32 : Bytes → ℕ) where
  -- From the checksum test to the `yield`.
  unfoldable pub accept_payload : Reader → ℕ → ℕ → Option (Result ErrorCode (Bytes × File)) → Turn
  accept_payload r size expected none = endless
  accept_payload r size expected (some (raise e)) = failed e r
  accept_payload r size expected (some (ok (payload, f))) =
      let r' = record r { file_bytes = r.file_bytes + size } in
      if not (checksum crc32 payload == expected)
      then failed ErrorCode.integrity_failure r'
      else if not (is_rtp_v2 payload)
      then failed ErrorCode.invalid_record r'
      else produced payload
          (record r' { packets = r'.packets + 1; payload_bytes = r'.payload_bytes + size }) f

  -- The tests on a whole header.
  unfoldable pub admit_record : Reader → ℕ → ℕ → File → Turn
  admit_record r size expected f =
      if not (leb 12 size && leb size r.limits.max_packet_bytes)
      then failed ErrorCode.invalid_record r
      else if ltb r.limits.max_packets (r.packets + 1)
          || ltb r.limits.max_payload_bytes (r.payload_bytes + size)
      then failed ErrorCode.limit_exceeded r
      else accept_payload r size expected (read_exact size f)

  unfoldable pub after_header : Reader → Result ErrorCode (Bytes × File) → Turn
  after_header r (raise e) = failed e r
  after_header r (ok (header, f)) =
      let r' = record r { file_bytes = r.file_bytes + length header } in
      if length header == 0
      then complete r'
      else if not (length header == record_header_size)
      then failed ErrorCode.truncated_record r'
      else admit_record r' (from_big_endian 0 (take 4 header)) (from_big_endian 0 (drop 4 header)) f

  unfoldable pub read_record : Reader → File → Turn
  unfolding read
  read_record r f = after_header r (read record_header_size f)

  -- `while True`: each turn that yields takes twenty bytes at least, which bounds the fuel.
  unfoldable pub read_records : ℕ → Reader → File → Run Reader ErrorCode Bytes
  read_records zero r f = out_of_fuel
  read_records (suc fuel) r f = elim (read_record r f) [
    | complete r' ↦ returns (record r' { state = State.complete })
    | failed e r' ↦ raises e (record r' { state = State.failed })
    | produced p r' f' ↦ yields p r' (read_records fuel r' f')
    | endless ↦ out_of_fuel
  ]

  unfoldable pub after_magic : Reader → Result ErrorCode (Bytes × File) → Run Reader ErrorCode Bytes
  after_magic r (raise e) = raises e (record r { state = State.failed })
  after_magic r (ok (head, f)) =
      let r' = record r { file_bytes = r.file_bytes + length head } in
      if not (bytes_eq head magic)
      then raises ErrorCode.invalid_header (record r' { state = State.failed })
      else read_records (suc (length f.bytes)) r' f

  read_opened : Reader → Option File → Run Reader ErrorCode Bytes
  read_opened r none = raises ErrorCode.io_failure (record r { state = State.failed })
  read_opened r (some f) = after_magic (record r { state = State.opened }) (read (length magic) f)

  -- `iter_packets`; a file that does not open is `none`.
  unfoldable pub iter_packets : Reader → Option File → Run Reader ErrorCode Bytes
  unfolding read read_opened
  iter_packets r file = elim r.state [
    | State.created ↦ read_opened r file
    | _ ↦ raises ErrorCode.invalid_state r
  ]

-- `iterator.close()` at a suspension: the `finally` block of `iter_packets`.
unfoldable pub close : Reader → Reader
close r = elim r.state [
  | State.opened ↦ record r { state = if r.closes then State.aborted else State.failed }
  | _ ↦ r
]
