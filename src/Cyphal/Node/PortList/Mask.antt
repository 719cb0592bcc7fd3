-- ===== src/Cyphal/Node/PortList/Mask.antt =====
-- lib/cyphal/node.cpp, WriteServiceList: the bytes of the mask in the buffer.
use unimoc.Prelude.{
  ℕ, zero, suc, ◌+◌, ◌-◌, ◌≡◌, ◌<◌, refl, ◌∙◌, true, List, [], ◌∷◌, ◌++◌, ltb, if◌then◌else◌,
  length, get_or, arith,
}
use unimoc.Cyphal.Node.PortList.Room.{Room, room, write_u8-Room, write_u32-Room}
use unimoc.Cyphal.Node.PortList.{
  Writer, write_u8, write_u32, mask_byte, write_mask, write_service_list,
}

get_or-append :
    (xs ys : List ℕ) (i : ℕ)
    → get_or (xs ++ ys) i 0
      ≡ (if ltb i (length xs) then get_or xs i 0 else get_or ys (i - length xs) 0)
get_or-append [] ys i = ground arith
get_or-append (x ∷ xs) ys zero = ground arith
get_or-append (x ∷ xs) ys (suc i) = ground (arith, get_or-append xs ys i)

write_u8-size : (v : ℕ) (w : Writer) → (write_u8 v w).size ≡ w.size + 1
unfolding write_u8
write_u8-size v w = refl

-- `w'` is `w` with more bytes behind: `j` of them are those of the mask from `index` on.
pub data Masked (services : List ℕ) (w : Writer) (count index : ℕ) (w' : Writer) : Type 0 where
  masked :
      w'.size ≡ w.size + count
      → ((i : ℕ) → i < w.size → get_or w'.written i 0 ≡ get_or w.written i 0)
      → ((j : ℕ) → j < count → get_or w'.written (w.size + j) 0 ≡ mask_byte services (index + j) 0)
      → Masked services w count index w'

write_u8-written :
    (v : ℕ) (w : Writer)
    → length w.written ≡ w.size
    → w.size < 600
    → (i : ℕ)
    → get_or (write_u8 v w).written i 0
      ≡ (if ltb i w.size then get_or w.written i 0 else get_or (v ∷ []) (i - w.size) 0)
unfolding write_u8
write_u8-written v w full fit i =
    let below : ltb w.size 600 ≡ true = ground arith in
    rw (below) (rw (full) at (get_or-append w.written (v ∷ []) i))

mask_here :
    (services : List ℕ) (count index : ℕ) (w w' : Writer)
    → length w.written ≡ w.size
    → w.size < 600
    → Masked services (write_u8 (mask_byte services index 0) w) count (suc index) w'
    → (j : ℕ) → j < suc count
    → get_or w'.written (w.size + j) 0 ≡ mask_byte services (index + j) 0
mask_here services count index w w' full fit (masked size before here) zero below =
    let byte = mask_byte services index 0 in
    let first : get_or (write_u8 byte w).written w.size 0 ≡ byte =
      write_u8-written byte w full fit w.size ∙ ground arith in
    let place : w.size + 0 ≡ w.size = omega arith in
    let same : index + 0 ≡ index = omega arith in
    rw (place, same) (before w.size (omega (arith, write_u8-size byte w)) ∙ first)
mask_here services count index w w' full fit (masked size before here) (suc j) below =
    let byte = mask_byte services index 0 in
    let place : w.size + suc j ≡ (write_u8 byte w).size + j = omega (arith, write_u8-size byte w) in
    let same : index + suc j ≡ suc index + j = omega arith in
    rw (place, same) (here j (omega arith))

mask_next :
    (services : List ℕ) (count index : ℕ) (w w' : Writer)
    → length w.written ≡ w.size
    → w.size < 600
    → Masked services (write_u8 (mask_byte services index 0) w) count (suc index) w'
    → Masked services w (suc count) index w'
mask_next services count index w w' full fit (masked size before here) =
    let byte = mask_byte services index 0 in
    masked (omega (arith, write_u8-size byte w))
      (λ i below.
        before i (omega (arith, write_u8-size byte w))
        ∙ ground (arith, write_u8-written byte w full fit i))
      (mask_here services count index w w' full fit (masked size before here))

pub write_mask-Masked :
    (services : List ℕ) (count index rest : ℕ) (w : Writer)
    → Room w (rest + count)
    → Room (write_mask services count index w) rest
      × Masked services w count index (write_mask services count index w)
unfolding write_mask
write_mask-Masked services zero index rest w (room full fit) = (
  room full (omega arith),
  masked (omega arith) (λ i below. refl) (λ j below. absurd (omega arith)),
)
write_mask-Masked services (suc count) index rest w (room full fit) =
    let byte = mask_byte services index 0 in
    let next = write_u8-Room byte (rest + count) w (room full (omega arith)) in
    let later = write_mask-Masked services count (suc index) rest (write_u8 byte w) next in
    (
      later.0,
      mask_next services count index w (write_mask services count (suc index) (write_u8 byte w))
          full (omega arith) (later.1),
    )

pub write_service_list-Room :
    (services : List ℕ) (count : ℕ) (w : Writer)
    → Room w (count + 68)
    → Room (write_service_list services w) count
unfolding write_service_list
write_service_list-Room services count w (room full fit) =
    (write_mask-Masked services 64 0 count (write_u32 64 w)
      (write_u32-Room 64 (count + 64) w (room full (omega arith)))).0
