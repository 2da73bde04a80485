-- ===== src/Wal/Bytes.antt =====
-- internal/cluster/raft_segment.go: an entry that was written is read back.
use mathlib.Core.List.{append_assoc}
use cue.Base.{
  take-length_append, drop-length_append, ℕ, zero, suc, ◌+◌, ◌-◌, ◌/◌, ◌^◌, ◌≤◌, ◌<◌, ◌≡◌, refl,
  sym, ap, ◌∙◌, false, List, ◌++◌, Option, some, length, take, drop, ltb, ==_refl, ok, done, arith,
  length-append,
}
use cue.Storage.{Entry}
use cue.Wal.{put_bytes, get_bytes, entry_bytes, read_full, read_header, read_entry, decode_entry}

pub length-put_bytes : (n v : ℕ) → length (put_bytes n v) ≡ n
unfolding put_bytes
length-put_bytes zero v = refl
length-put_bytes (suc n) v = ap suc (length-put_bytes n (v / 256))

-- The bytes of a number, read again, are the number, where they are enough.
pub get_bytes-put_bytes : (n v : ℕ) → v < 256 ^ n → get_bytes (put_bytes n v) ≡ v
unfolding put_bytes get_bytes
get_bytes-put_bytes zero v h = omega (arith, h)
get_bytes-put_bytes (suc n) v h =
    omega (arith, h, get_bytes-put_bytes n (v / 256) (omega (arith, h)))

-- A read of bytes that are there.
read_full_lem :
    (n : ℕ) (bytes : List ℕ)
    → n ≤ length bytes
    → read_full n bytes ≡ ok (take n bytes, drop n bytes)
unfolding read_full
read_full_lem zero bytes h = refl
read_full_lem (suc n) bytes h = ground arith

read_full-append : (n : ℕ) (xs ys : List ℕ) → length xs ≡ n → read_full n (xs ++ ys) ≡ ok (xs, ys)
read_full-append n xs ys h = rw (sym h) (
    read_full_lem (length xs) (xs ++ ys) (omega (arith, length-append xs ys))
    ∙ rw (take-length_append xs ys, drop-length_append xs ys) refl)

read_header_lem :
    (header rest : List ℕ)
    → length header ≡ 16
    → read_header (header ++ rest)
      ≡ ok (record { index = get_bytes (drop 8 header); total = get_bytes (take 8 header) }, rest)
unfolding read_header
read_header_lem header rest h = rw (read_header, read_full-append 16 header rest h) refl

pub read_header-append :
    (xs ys rest : List ℕ)
    → length xs ≡ 8
    → length ys ≡ 8
    → read_header (xs ++ (ys ++ rest))
      ≡ ok (record { index = get_bytes ys; total = get_bytes xs }, rest)
read_header-append xs ys rest h k =
    let both : length (xs ++ ys) ≡ 16 = omega (arith, h, k, length-append xs ys) in
    let front : take 8 (xs ++ ys) ≡ xs = rw (sym h) (take-length_append xs ys) in
    let back : drop 8 (xs ++ ys) ≡ ys = rw (sym h) (drop-length_append xs ys) in
    rw (sym (append_assoc xs ys rest), read_header_lem (xs ++ ys) rest both, front, back) refl

pub length-entry_bytes : (index : ℕ) (d : List ℕ) → length (entry_bytes index d) ≡ 16 + length d
unfolding entry_bytes
length-entry_bytes index d = omega (
  arith,
  length-append (put_bytes 8 (16 + length d)) (put_bytes 8 index ++ d),
  length-append (put_bytes 8 index) d,
  length-put_bytes 8 (16 + length d),
  length-put_bytes 8 index,
)

-- A header that was written is read back.
pub read_header-entry_bytes :
    (index : ℕ) (d rest : List ℕ)
    → index < 256 ^ 8
    → 16 + length d < 256 ^ 8
    → read_header (entry_bytes index d ++ rest)
      ≡ ok (record { index = index; total = 16 + length d }, d ++ rest)
unfolding entry_bytes
read_header-entry_bytes index d rest h k =
    rw
      (
        append_assoc (put_bytes 8 (16 + length d)) (put_bytes 8 index ++ d) rest,
        append_assoc (put_bytes 8 index) d rest,
        read_header-append (put_bytes 8 (16 + length d)) (put_bytes 8 index) (d ++ rest)
            (length-put_bytes 8 (16 + length d)) (length-put_bytes 8 index),
        get_bytes-put_bytes 8 (16 + length d) k,
        get_bytes-put_bytes 8 index h,
      )
      refl

-- An entry that was written is read back, and leaves what stands behind it.
pub read_entry-entry_bytes :
    (unmarshal : List ℕ → Option Entry) (e : Entry) (d rest : List ℕ)
    → unmarshal d ≡ some e
    → e.index < 256 ^ 8
    → 16 + length d < 256 ^ 8
    → read_entry unmarshal (entry_bytes e.index d ++ rest) ≡ done (ok (e, rest))
unfolding read_entry decode_entry
read_entry-entry_bytes unmarshal e d rest h i k =
    let sized : ltb (16 + length d) 16 ≡ false = ground arith in
    let payload : read_full (16 + length d - 16) (d ++ rest) ≡ ok (d, rest) =
      read_full-append (16 + length d - 16) d rest (omega arith) in
    rw
      (
        read_entry,
        read_header-entry_bytes e.index d rest i k,
        sized,
        payload,
        decode_entry,
        h,
        ==_refl e.index,
      )
      refl
