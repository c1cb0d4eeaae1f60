-- ===== src/Contract/Words.antt =====
-- The encoders of src/contract/contract.cpp for one word of 32 bytes, and for bytes. A result is
-- what the function leaves in `out`; a `none` stands for a return of -1, which leaves `out` alone, or
-- for a write behind `out`.
use iotex_arduino.Base.{ℕ, zero, suc, ◌+◌, ◌-◌, ◌*◌, ◌/◌, ◌%◌, ◌^◌, List, [], ◌∷◌, ◌++◌}
use iotex_arduino.Base.{Bool, false, ◌||◌, ◌&&◌, Option, none, some, take, replicate}
use iotex_arduino.Base.{get_or, set, ltb, leb, ◌==◌, if◌then◌else◌, not}
use iotex_arduino.Abi.{stored}

-- `pVal[size-1], …, pVal[0]`, the loop that swaps the bytes when copying.
unfoldable pub swapped : List ℕ → ℕ → List ℕ
swapped p_val zero = []
swapped p_val (suc n) = get_or p_val n 0 ∷ swapped p_val n

unfoldable pub generate_bytes_for_uint : List ℕ → ℕ → Option (List ℕ)
generate_bytes_for_uint p_val size =
    if ltb 32 size then none else some (replicate (32 - size) 0 ++ swapped p_val size)

-- The sign bit of the integer type that the size selects, read through a cast pointer.
unfoldable pub is_negative : List ℕ → ℕ → Bool
is_negative p_val size =
    if size == 1
    then leb 128 (get_or p_val 0 0)
    else if size == 2
    then leb 128 (get_or p_val 1 0)
    else if ltb 2 size && leb size 4
    then leb 128 (get_or p_val 3 0)
    else if ltb 4 size && leb size 8
    then leb 128 (get_or p_val 7 0)
    else false

-- For sizes up to 32; above, `32 - size` wraps and the write leaves the buffer.
unfoldable pub generate_bytes_for_int : List ℕ → ℕ → Option (List ℕ)
generate_bytes_for_int p_val size =
    if ltb 256 size || (ltb 8 size && not (size % 8 == 0))
    then none
    else some
        (replicate (32 - size) (if is_negative p_val size then 0xff else 0) ++ swapped p_val size)

unfoldable pub generate_bytes_for_bool : Bool → List ℕ
generate_bytes_for_bool val = replicate 31 0 ++ ((if val then 1 else 0) ∷ [])

-- The loop of EndianSwap from the index `i` on, with `rounds` of size / 2 left.
unfoldable pub endian_swap_loop : ℕ → ℕ → ℕ → List ℕ → List ℕ
endian_swap_loop zero i size p_data = p_data
endian_swap_loop (suc rounds) i size p_data =
    let last = size - 1 - i in
    let tmp = get_or p_data last 0 in
    endian_swap_loop rounds (i + 1) size (set (set p_data last (get_or p_data i 0)) i tmp)

unfoldable pub endian_swap : List ℕ → ℕ → List ℕ
endian_swap p_data size = if ltb size 2 then p_data else endian_swap_loop (size / 2) 0 size p_data

unfoldable pub generate_bytes_for_address : List ℕ → Option (List ℕ)
generate_bytes_for_address p_val = generate_bytes_for_uint (endian_swap (take 20 p_val) 20) 20

-- The binary digits of a number behind its first 24, which a float does not hold. A `size_t` has at
-- most 64 digits, so 64 halvings are enough.
unfoldable pub lost_digits : ℕ → ℕ → ℕ
lost_digits zero n = 0
lost_digits (suc fuel) n =
    let rest = suc (lost_digits fuel (n / 2)) in if ltb n (2 ^ 24) then 0 else rest

-- The multiple of the unit that is nearest, the even one of two.
unfoldable pub round_to : ℕ → ℕ → ℕ
round_to unit n =
    if ltb (2 * (n % unit)) unit || (2 * (n % unit) == unit && n / unit % 2 == 0)
    then n / unit * unit
    else (n / unit + 1) * unit

-- The conversion to a float.
unfoldable pub to_float : ℕ → ℕ
to_float n = round_to (2 ^ lost_digits 64 n) n

-- ceil((float)size / 32.0), in which only the conversion rounds.
unfoldable pub groups_of_32 : ℕ → ℕ
groups_of_32 size = (to_float size + 31) / 32

-- `out` has the size that the groups give, as the callers declare it. A size that the conversion
-- rounds down below a multiple of 32 is larger, and the loop writes behind it.
unfoldable pub generate_bytes_for_static_bytes : List ℕ → ℕ → Option (List ℕ)
generate_bytes_for_static_bytes p_val size =
    let total_size = groups_of_32 size * 32 in
    if ltb total_size size then none else some (take size p_val ++ replicate (total_size - size) 0)

-- The length as a `size_t` of eight bytes, and the bytes.
unfoldable pub generate_bytes_for_bytes : List ℕ → ℕ → Option (List ℕ)
generate_bytes_for_bytes p_val size = elim (generate_bytes_for_uint (stored 8 size) 8) [
  | none ↦ none
  | some head ↦ elim (generate_bytes_for_static_bytes p_val size) [
    | none ↦ none
    | some value ↦ some (head ++ value)
  ]
]

unfoldable pub generate_bytes_for_string : List ℕ → ℕ → Option (List ℕ)
generate_bytes_for_string p_val size = generate_bytes_for_bytes p_val size
