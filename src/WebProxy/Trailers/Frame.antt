-- ===== src/WebProxy/Trailers/Frame.antt =====
-- The data frame in which gRPC-Web sends the trailers: a flag byte, the length of the payload in
-- four bytes, and the payload.
use go_api_boot.Base.{
  ℕ, ◌+◌, ◌*◌, ◌/◌, ◌%◌, ◌^◌, ◌<◌, Str, ◌∷◌, ◌++◌, Option, none, some, length, take, drop,
  take-append_length, drop-append_length, ◌≡◌, arith, ltb, if◌then◌else◌, length-append,
}
use go_api_boot.WebProxy.Trailers.{trailer_header}

-- How a gRPC-Web client reads a frame: the flags, the payload and what is behind it.
unfoldable pub read_frame : Str → Option (ℕ × Str × Str)
read_frame (flags ∷ a ∷ b ∷ c ∷ d ∷ s) =
    let n = a * 2 ^ 24 + b * 2 ^ 16 + c * 2 ^ 8 + d in
    if ltb (length s) n then none else some (flags, take n s, drop n s)
read_frame _ = none

big_endian_value :
    (n : ℕ)
    → n < 2 ^ 32
    → n % 2 ^ 32 / 2 ^ 24 * 2 ^ 24
        + n % 2 ^ 32 / 2 ^ 16 % 256 * 2 ^ 16
        + n % 2 ^ 32 / 2 ^ 8 % 256 * 2 ^ 8
        + n % 2 ^ 32 % 256
      ≡ n
big_endian_value n h = omega arith

-- A client that reads a trailer frame, whose payload is shorter than 2 to the 32, gets the flag of
-- a trailer frame, the payload, and what follows.
pub read_frame-trailer_header :
    (payload rest : Str)
    → length payload < 2 ^ 32
    → read_frame (trailer_header payload ++ (payload ++ rest)) ≡ some (128, payload, rest)
unfolding read_frame trailer_header
read_frame-trailer_header payload rest h =
    rw
      (
        big_endian_value (length payload) h,
        take-append_length payload rest,
        drop-append_length payload rest,
      )
      (ground (arith, length-append payload rest))
