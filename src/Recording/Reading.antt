-- ===== src/Recording/Reading.antt =====
-- What one turn of the reader does: exact reads, and the inversion of a turn that yields.
use k5_vision.Prelude.{
  ℕ, zero, suc, ◌-◌, ◌≤◌, ◌<◌, ◌≡◌, refl, true, false, [], ◌++◌, arith, ◌==◌, if◌then◌else◌, length,
  take, drop, length-take, length-drop, ok, raise, some, none, ltb, ◌≢◌, Bool-cases, inl, inr,
}
use k5_vision.Rtp.{Bytes}
use k5_vision.Recording.Sink.{ErrorCode}
use k5_vision.Recording.Reader.{File, read, read_exact, read_exact_loop}

-- What `read` hands out, and the file behind it.
abbrev rest_of : ℕ → File → Bytes × File
rest_of n f = (take n f.bytes, record f { bytes = drop n f.bytes })

pub read_full :
    (n : ℕ) (f : File)
    → n ≤ length f.bytes
    → read n f ≡ ok (take n f.bytes, record f { bytes = drop n f.bytes })
unfolding read
read_full n f h = ground arith

read_short :
    (n : ℕ) (f : File)
    → length f.bytes < n
    → f.breaks ≡ false
    → read n f ≡ ok (take n f.bytes, record f { bytes = drop n f.bytes })
unfolding read
read_short n f h b = ground arith

read_broken :
    (n : ℕ) (f : File)
    → length f.bytes < n
    → f.breaks ≡ true
    → read n f ≡ raise ErrorCode.io_failure
unfolding read
read_broken n f h b = ground arith

loop_turn_ok :
    (fuel remaining : ℕ) (chunks : Bytes) (f : File) (chunk : Bytes) (f' : File)
    → 0 < remaining
    → read remaining f ≡ ok (chunk, f')
    → 0 < length chunk
    → read_exact_loop (suc fuel) remaining chunks f
      ≡ read_exact_loop fuel (remaining - length chunk) (chunks ++ chunk) f'
unfolding read_exact_loop
loop_turn_ok fuel remaining chunks f chunk f' h r c = ground arith

loop_turn_empty :
    (fuel remaining : ℕ) (chunks : Bytes) (f : File) (chunk : Bytes) (f' : File)
    → 0 < remaining
    → read remaining f ≡ ok (chunk, f')
    → length chunk ≡ 0
    → read_exact_loop (suc fuel) remaining chunks f ≡ some (raise ErrorCode.truncated_record)
unfolding read_exact_loop
loop_turn_empty fuel remaining chunks f chunk f' h r c = ground arith

loop_turn_raise :
    (fuel remaining : ℕ) (chunks : Bytes) (f : File) (e : ErrorCode)
    → 0 < remaining
    → read remaining f ≡ raise e
    → read_exact_loop (suc fuel) remaining chunks f ≡ some (raise e)
unfolding read_exact_loop
loop_turn_raise fuel remaining chunks f e h r = ground arith

loop_done :
    (fuel : ℕ) (chunks : Bytes) (f : File)
    → read_exact_loop (suc fuel) 0 chunks f ≡ some (ok (chunks, f))
unfolding read_exact_loop
loop_done fuel chunks f = refl

read_exact_at_end :
    (n : ℕ) (f : File)
    → length f.bytes < suc n
    → f.breaks ≡ false
    → read_exact_loop (suc (suc n)) (suc n) [] f ≡ some (raise ErrorCode.truncated_record)
read_exact_at_end n f h whole = elim (Bool-cases (length f.bytes == 0)) [
  | inl empty ↦
      loop_turn_empty (suc n) (suc n) [] f (rest_of (suc n) f).0 (rest_of (suc n) f).1 (omega arith)
        (read_short (suc n) f h whole) (ground (arith, length-take (suc n) f.bytes))
  | inr more ↦
      let len : length (take (suc n) f.bytes) ≡ length f.bytes =
        omega (arith, length-take (suc n) f.bytes) in
      let g = (rest_of (suc n) f).1 in
      let gone : length g.bytes ≡ 0 = omega (arith, length-drop (suc n) f.bytes) in
      let left = suc n - length (take (suc n) f.bytes) in
      rw
        (loop_turn_ok (suc n) (suc n) [] f (take (suc n) f.bytes) g (omega arith)
          (read_short (suc n) f h whole) (ground arith))
        (loop_turn_empty n left (take (suc n) f.bytes) g (rest_of left g).0 (rest_of left g).1
          (omega arith) (read_short left g (omega arith) whole)
          (omega (arith, length-take left g.bytes)))
]

-- Where the file has as many bytes as are asked for, the loop gives exactly the first of them and
-- leaves the rest.
pub read_exact_full :
    (size : ℕ) (f : File)
    → size ≤ length f.bytes
    → read_exact size f ≡ some (ok (take size f.bytes, record f { bytes = drop size f.bytes }))
unfolding read_exact
read_exact_full zero f h = loop_done 0 [] f
read_exact_full (suc n) f h =
    let chunk = take (suc n) f.bytes in
    let f' = let g : File = record f { bytes = drop (suc n) f.bytes } in g in
    let len : length chunk ≡ suc n = omega (arith, length-take (suc n) f.bytes) in
    let none_left : suc n - length chunk ≡ 0 = omega arith in
    rw
      (
        loop_turn_ok (suc n) (suc n) [] f chunk f' (omega arith) (read_full (suc n) f h)
            (omega arith),
        none_left,
      )
      (loop_done n chunk f')

-- Where the file has fewer bytes than are asked for, the loop raises: `IO_FAILURE` if the file
-- breaks, `TRUNCATED_RECORD` otherwise.
pub read_exact_short :
    (size : ℕ) (f : File)
    → length f.bytes < size
    → read_exact size f
      ≡ some (raise (if f.breaks then ErrorCode.io_failure else ErrorCode.truncated_record))
unfolding read_exact
read_exact_short zero f h = absurd (omega arith)
read_exact_short (suc n) f h = elim (Bool-cases f.breaks) [
  | inl broken ↦ rw (
    loop_turn_raise (suc n) (suc n) [] f ErrorCode.io_failure (omega arith)
        (read_broken (suc n) f h broken),
    broken,
  )
  | inr whole ↦ simp whole (read_exact_at_end n f h whole)
]

-- The fuel is enough: every turn but the last takes a byte at least.
pub read_exact-ne-none : (size : ℕ) (f : File) → read_exact size f ≢ none
read_exact-ne-none size f = elim (Bool-cases (ltb (length f.bytes) size)) [
  | inl short ↦ rw (read_exact_short size f (ground arith)) (λ h. cc)
  | inr full ↦ rw (read_exact_full size f (ground arith)) (λ h. cc)
]
