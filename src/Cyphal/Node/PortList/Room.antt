-- ===== src/Cyphal/Node/PortList/Room.antt =====
-- lib/cyphal/node.cpp, Writer: what is written fits the buffer while there is room.
use unimoc.Prelude.{
  ℕ, ◌+◌, ◌*◌, ◌/◌, ◌%◌, ◌^◌, ◌≡◌, ◌≤◌, min, true, List, [], ◌∷◌, ltb, length, take, length-append,
  length-take, arith,
}
use unimoc.Cyphal.Node.PortList.{
  Writer, write_u8, write_u16, write_u32, write_subjects, write_subject_list,
}

-- All that was written fitted, and so will `count` bytes more.
pub data Room (w : Writer) (count : ℕ) : Type 0 where
  room : length w.written ≡ w.size → w.size + count ≤ 600 → Room w count

pub write_u8-Room : (v count : ℕ) (w : Writer) → Room w (count + 1) → Room (write_u8 v w) count
unfolding write_u8
write_u8-Room v count w (room full fit) =
    let below : ltb w.size 600 ≡ true = ground arith in
    room (rw (below) (omega (arith, length-append w.written (v ∷ [])))) (omega arith)

pub write_u16-Room : (v count : ℕ) (w : Writer) → Room w (count + 2) → Room (write_u16 v w) count
unfolding write_u16
write_u16-Room v count w (room full fit) =
    write_u8-Room (v / 2 ^ 8 % 2 ^ 8) count (write_u8 (v % 2 ^ 8) w)
      (write_u8-Room (v % 2 ^ 8) (count + 1) w (room full (omega arith)))

pub write_u32-Room : (v count : ℕ) (w : Writer) → Room w (count + 4) → Room (write_u32 v w) count
unfolding write_u32
write_u32-Room v count w (room full fit) =
    write_u16-Room (v / 2 ^ 16) count (write_u16 (v % 2 ^ 16) w)
      (write_u16-Room (v % 2 ^ 16) (count + 2) w (room full (omega arith)))

pub write_subjects-Room :
    (subjects : List ℕ) (count : ℕ) (w : Writer)
    → Room w (count + 2 * length subjects)
    → Room (write_subjects subjects w) count
unfolding write_subjects
write_subjects-Room [] count w (room full fit) = room full (omega arith)
write_subjects-Room (x ∷ subjects) count w (room full fit) =
    write_subjects-Room subjects count (write_u16 (x % 2 ^ 13) w)
      (write_u16-Room (x % 2 ^ 13) (count + 2 * length subjects) w (room full (omega arith)))

pub write_subject_list-Room :
    (subjects : List ℕ) (count : ℕ) (w : Writer)
    → Room w (count + (6 + 2 * length subjects))
    → Room (write_subject_list subjects w) count
unfolding write_subject_list
write_subject_list-Room subjects count w (room full fit) =
    let n = min (length subjects) 255 in
    let short = length-take n subjects in
    write_subjects-Room (take n subjects) count (write_u8 n (write_u8 1 (write_u32 (2 + 2 * n) w)))
      (write_u8-Room n (count + 2 * length (take n subjects)) (write_u8 1 (write_u32 (2 + 2 * n) w))
        (write_u8-Room 1 (count + 2 * length (take n subjects) + 1) (write_u32 (2 + 2 * n) w) (
          write_u32-Room (2 + 2 * n) (count + 2 * length (take n subjects) + 1 + 1) w
            (room full (omega arith)))))
