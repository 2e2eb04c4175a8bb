-- ===== src/Base/Bytes.antt =====
-- include/modern_leveldb/base/bytes.h and src/base/bytes_internal.h: byte views. A view or a vector
-- of bytes is a list of numbers below 256.
use modern_level_db.Prelude.{ℕ, suc, ◌<◌, ◌+◌, List, [], ◌∷◌, ◌++◌, All, take, drop, length}
use modern_level_db.Prelude.{
  ◌==◌, leb, Option, none, some, ◌≤◌, true, if◌then◌else◌, ◌≡◌, refl, ap, ◌∙◌, arith, length-append,
  length-take, length-drop, take-append, drop_all, append-nil,
}

abbrev pub IsByte : ℕ → Type 0
IsByte b = b < 256

abbrev pub AreBytes : List ℕ → Type 0
AreBytes bytes = All IsByte bytes

-- The bytes `bytes` written over a buffer from position `offset` on.
abbrev pub write_at : List ℕ → ℕ → List ℕ → List ℕ
write_at buffer offset bytes = take offset buffer ++ (bytes ++ drop (offset + length bytes) buffer)

-- The same write into a buffer that cannot grow: `none` is a write past its end.
abbrev pub write_within : List ℕ → ℕ → List ℕ → Option (List ℕ)
write_within buffer offset bytes =
    if leb (offset + length bytes) (length buffer)
    then some (write_at buffer offset bytes)
    else none

-- The loop stops at the end of the shorter view or at the first difference.
unfoldable pub shared_prefix_length : List ℕ → List ℕ → ℕ
shared_prefix_length (x ∷ left) (y ∷ right) =
    let rest = suc (shared_prefix_length left right) in if x == y then rest else 0
shared_prefix_length left right = 0

-- Writing as many bytes as were added behind a buffer keeps the buffer and replaces what was added.
pub write_at_end :
    (buffer room bytes : List ℕ)
    → length room ≡ length bytes
    → write_at (buffer ++ room) (length buffer) bytes ≡ buffer ++ bytes
write_at_end buffer room bytes h =
    let cut : drop (length buffer + length bytes) (buffer ++ room) ≡ [] =
      drop_all _ (buffer ++ room) (omega (arith, length-append buffer room)) in
    rw (take-append (length buffer) buffer room refl, cut, append-nil)

pub write_within-room :
    (buffer : List ℕ) (offset : ℕ) (bytes : List ℕ)
    → offset + length bytes ≤ length buffer
    → write_within buffer offset bytes ≡ some (write_at buffer offset bytes)
write_within-room buffer offset bytes h =
    let room : leb (offset + length bytes) (length buffer) ≡ true = ground arith in rw room refl

pub write_within_end :
    (buffer room bytes : List ℕ)
    → length room ≡ length bytes
    → write_within (buffer ++ room) (length buffer) bytes ≡ some (buffer ++ bytes)
write_within_end buffer room bytes h =
    write_within-room (buffer ++ room) (length buffer) bytes
      (omega (arith, length-append buffer room))
    ∙ ap some (write_at_end buffer room bytes h)

pub length-write_at :
    (buffer : List ℕ) (offset : ℕ) (bytes : List ℕ)
    → offset + length bytes ≤ length buffer
    → length (write_at buffer offset bytes) ≡ length buffer
length-write_at buffer offset bytes h = omega (
  arith,
  length-append (take offset buffer) (bytes ++ drop (offset + length bytes) buffer),
  length-append bytes (drop (offset + length bytes) buffer),
  length-take offset buffer,
  length-drop (offset + length bytes) buffer,
)
