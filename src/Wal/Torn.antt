-- ===== src/Wal/Torn.antt =====
-- internal/cluster/raft_segment.go: Recover on a file whose last write was cut off.
use mathlib.Core.List.{append_assoc, append-nil}
use cue.Base.{
  ℕ, zero, suc, ◌+◌, ◌-◌, ◌^◌, ◌≤◌, ◌<◌, ◌≡◌, refl, sym, ap, subst, ◌∙◌, Bool, true, false, inl,
  inr, Bool-cases, List, [], ◌∷◌, ◌++◌, Option, All, if◌then◌else◌, length, take, ltb, ◌==◌, ◌||◌,
  Result, ok, err, Run, done, arith, length-append,
}
use cue.Storage.{Entry}
use cue.Wal.{
  Segment, SegmentedWal, WalError, at_end, cut_off, entry_bytes, put_bytes, read_full, read_entry,
  read_header, recover_file, recover_wal, recover_all,
}
use cue.Wal.Bytes.{
  read_header-append, read_entry-entry_bytes, length-put_bytes, get_bytes-put_bytes,
  length-entry_bytes,
}
use cue.Wal.Files.{Written, Readable, file_of, entries_of, newer, written_bytes, length-file_of}
use cue.Wal.Recovery.{newer-log_append, recover_file-Holds, Sealed, joined, Logs}

length-take : (n : ℕ) (xs : List ℕ) → n ≤ length xs → length (take n xs) ≡ n
length-take zero xs h = refl
length-take (suc n) [] h = absurd (omega (arith, h))
length-take (suc n) (x ∷ xs) h = ap suc (length-take n xs (omega (arith, h)))

-- A read that finds fewer bytes than it wants.
read_full-short :
    (n : ℕ) (bytes : List ℕ)
    → length bytes < n
    → read_full n bytes ≡ err (if length bytes == 0 then at_end else cut_off)
unfolding read_full
read_full-short n bytes h = ground (arith, h)

-- A header that is cut off.
read_entry-header_cut :
    (unmarshal : List ℕ → Option Entry) (bytes : List ℕ)
    → length bytes < 16
    → 0 < length bytes
    → read_entry unmarshal bytes ≡ done (err cut_off)
unfolding read_entry read_header
read_entry-header_cut unmarshal bytes h p =
    let some_read : (length bytes == 0) ≡ false = ground (arith, p) in
    rw (read_entry, read_header, read_full-short 16 bytes h, some_read) refl

take-append : (xs ys : List ℕ) (j : ℕ) → take (length xs + j) (xs ++ ys) ≡ xs ++ take j ys
take-append [] ys j = let e : 0 + j ≡ j = omega arith in ap (λ n. take n ys) e
take-append (x ∷ xs) ys j =
    let e : suc (length xs) + j ≡ suc (length xs + j) = omega arith in
    ap (λ n. take n (x ∷ xs ++ ys)) e ∙ ap (λ l. x ∷ l) (take-append xs ys j)

-- The header is there, and some of the data.
read_header-take :
    (index : ℕ) (d : List ℕ) (j : ℕ)
    → index < 256 ^ 8
    → 16 + length d < 256 ^ 8
    → read_header (take (16 + j) (entry_bytes index d))
      ≡ ok (record { index = index; total = 16 + length d }, take j d)
unfolding entry_bytes
read_header-take index d j h k =
    let size = put_bytes 8 (16 + length d) in
    let number = put_bytes 8 index in
    let cut : take (16 + j) (size ++ (number ++ d)) ≡ size ++ (number ++ take j d) =
      subst (λ n. take n (size ++ (number ++ d)) ≡ size ++ (number ++ take j d))
        (omega (arith, length-put_bytes 8 (16 + length d), length-put_bytes 8 index))
        (take-append size (number ++ d) (length number + j)
          ∙ ap (λ l. size ++ l) (take-append number d j)) in
    ap read_header cut
    ∙ (read_header-append size number (take j d) (length-put_bytes 8 (16 + length d))
          (length-put_bytes 8 index)
        ∙ rw (get_bytes-put_bytes 8 (16 + length d) k, get_bytes-put_bytes 8 index h) refl)

-- Data that is cut off. With none of it, the error is that of a file that ends where an entry would start.
read_entry-data_cut :
    (unmarshal : List ℕ → Option Entry) (index : ℕ) (d : List ℕ) (j : ℕ)
    → index < 256 ^ 8
    → 16 + length d < 256 ^ 8
    → j < length d
    → read_entry unmarshal (take (16 + j) (entry_bytes index d))
      ≡ done (err (if j == 0 then at_end else cut_off))
unfolding read_entry
read_entry-data_cut unmarshal index d j h k l =
    let sized : ltb (16 + length d) 16 ≡ false = ground arith in
    let here : length (take j d) ≡ j = length-take j d (omega (arith, l)) in
    let short : read_full (16 + length d - 16) (take j d)
        ≡ err (if j == 0 then at_end else cut_off) =
      read_full-short (16 + length d - 16) (take j d) (omega (arith, l, here)) ∙ rw here refl in
    rw (read_entry, read_header-take index d j h k, sized, short) refl

-- A write of `k` bytes of an entry.
read_entry-torn :
    (unmarshal : List ℕ → Option Entry) (w : Written) (k : ℕ)
    → Readable unmarshal w
    → k < 16 + length w.1
    → read_entry unmarshal (take k (written_bytes w))
      ≡ done (err (if (k == 0) || (k == 16) then at_end else cut_off))
unfolding read_entry read_header read_full
read_entry-torn unmarshal w zero r h = refl
read_entry-torn unmarshal w (suc k) (r, (i, n)) h =
    let here : length (take (suc k) (written_bytes w)) ≡ suc k =
      length-take (suc k) (written_bytes w) (omega (arith, h, length-entry_bytes w.0.index w.1)) in
    elim (Bool-cases (ltb (suc k) 16)) [
      | inl t ↦
          let small : suc k < 16 = ground (arith, t) in
          let other : ((suc k == 0) || (suc k == 16)) ≡ false = ground (arith, t) in
          read_entry-header_cut unmarshal (take (suc k) (written_bytes w))
            (omega (arith, here, small)) (omega (arith, here))
          ∙ rw other refl
      | inr f ↦
          let large : 16 + (suc k - 16) ≡ suc k = ground (arith, f) in
          let same : (suc k - 16 == 0) ≡ ((suc k == 0) || (suc k == 16)) = ground (arith, f) in
          subst
            (λ n.
              read_entry unmarshal (take n (written_bytes w))
              ≡ done (err (if (suc k == 0) || (suc k == 16) then at_end else cut_off)))
            large
            (read_entry-data_cut unmarshal w.0.index w.1 (suc k - 16) i n (omega (arith, h, large))
              ∙ rw same refl)
    ]

-- The loop of `Recover` at an error.
recover_file-error :
    (unmarshal : List ℕ → Option Entry) (fuel snapshot_index : ℕ) (bytes : List ℕ) (b : Bool)
    → read_entry unmarshal bytes ≡ done (err (if b then at_end else cut_off))
    → recover_file unmarshal (suc fuel) snapshot_index bytes
      ≡ done (if b then ok [] else err cut_off)
unfolding recover_file
recover_file-error unmarshal fuel snapshot_index bytes true h = rw (recover_file, h) refl
recover_file-error unmarshal fuel snapshot_index bytes false h = rw (recover_file, h) refl

-- What Recover reports of a file with these entries and, behind them, an error or the end.
abbrev reported : Bool → List Entry → Run (Result WalError (List Entry))
reported b es = done (if b then ok es else err cut_off)

recover_file-later :
    (unmarshal : List ℕ → Option Entry) (fuel snapshot_index : ℕ) (bytes rest : List ℕ) (e : Entry)
    (es : List Entry) (b : Bool)
    → read_entry unmarshal bytes ≡ done (ok (e, rest))
    → recover_file unmarshal fuel snapshot_index rest ≡ reported b es
    → recover_file unmarshal (suc fuel) snapshot_index bytes
      ≡ reported b (if ltb snapshot_index e.index then e ∷ es else es)
unfolding recover_file
recover_file-later unmarshal fuel snapshot_index bytes rest e es true h k =
    rw (recover_file, h, k) refl
recover_file-later unmarshal fuel snapshot_index bytes rest e es false h k =
    rw (recover_file, h, k) refl

recover_file-tail :
    (unmarshal : List ℕ → Option Entry) (snapshot_index fuel : ℕ) (ws : List Written)
    (tail : List ℕ) (b : Bool)
    → All (Readable unmarshal) ws
    → length ws < fuel
    → read_entry unmarshal tail ≡ done (err (if b then at_end else cut_off))
    → recover_file unmarshal fuel snapshot_index (file_of ws ++ tail)
      ≡ reported b (newer snapshot_index (entries_of ws))
recover_file-tail unmarshal snapshot_index zero ws tail b rs h t = absurd (omega (arith, h))
recover_file-tail unmarshal snapshot_index (suc fuel) [] tail b rs h t =
    recover_file-error unmarshal fuel snapshot_index tail b t
recover_file-tail unmarshal snapshot_index (suc fuel) (w ∷ ws) tail b (r, rs) h t =
    recover_file-later unmarshal fuel snapshot_index (file_of (w ∷ ws) ++ tail) (file_of ws ++ tail)
      w.0 (newer snapshot_index (entries_of ws)) b
      (rw (append_assoc (written_bytes w) (file_of ws) tail)
        (read_entry-entry_bytes unmarshal w.0 w.1 (file_of ws ++ tail) r.0 r.1.0 r.1.1))
      (recover_file-tail unmarshal snapshot_index fuel ws tail b rs (omega (arith, h)) t)

-- The log after a write of the first `k` bytes of an entry.
pub torn : SegmentedWal → Written → ℕ → SegmentedWal
torn sw w k = record sw {
  active = record sw.active { content = sw.active.content ++ take k (written_bytes w) };
}

recover_all-later :
    (unmarshal : List ℕ → Option Entry) (snapshot_index : ℕ) (seg : Segment) (segs : List Segment)
    (es fs : List Entry) (b : Bool)
    → recover_file unmarshal (suc (length seg.content)) snapshot_index seg.content ≡ done (ok es)
    → recover_all unmarshal snapshot_index segs ≡ reported b fs
    → recover_all unmarshal snapshot_index (seg ∷ segs) ≡ reported b (es ++ fs)
unfolding recover_all
recover_all-later unmarshal snapshot_index seg segs es fs true h k = rw (recover_all, h, k) refl
recover_all-later unmarshal snapshot_index seg segs es fs false h k = rw (recover_all, h, k) refl

recover_all-last :
    (unmarshal : List ℕ → Option Entry) (snapshot_index : ℕ) (segs : List Segment)
    (wss : List (List Written)) (active : Segment) (es : List Entry) (b : Bool)
    → Sealed unmarshal segs wss
    → recover_file unmarshal (suc (length active.content)) snapshot_index active.content
      ≡ reported b es
    → recover_all unmarshal snapshot_index (segs ++ active ∷ [])
      ≡ reported b (newer snapshot_index (entries_of (joined wss)) ++ es)
unfolding recover_all
recover_all-last unmarshal snapshot_index [] [] active es true s h =
    rw (recover_all, h, append-nil es) refl
recover_all-last unmarshal snapshot_index [] [] active es false s h = rw (recover_all, h) refl
recover_all-last unmarshal snapshot_index [] (ws ∷ wss) active es b s h = absurd s
recover_all-last unmarshal snapshot_index (seg ∷ segs) [] active es b s h = absurd s
recover_all-last unmarshal snapshot_index (seg ∷ segs) (ws ∷ wss) active es b (t, s) h =
    recover_all-later unmarshal snapshot_index seg (segs ++ active ∷ [])
      (newer snapshot_index (entries_of ws)) (newer snapshot_index (entries_of (joined wss)) ++ es)
      b (recover_file-Holds unmarshal (suc seg.end_index) snapshot_index seg ws t)
      (recover_all-last unmarshal snapshot_index segs wss active es b s h)
    ∙ ap (reported b) (
        rw
          (
            newer-log_append snapshot_index ws (joined wss),
            append_assoc (newer snapshot_index (entries_of ws))
                (newer snapshot_index (entries_of (joined wss))) es,
          )
          refl)

-- Let the files of the log hold some entries, and let a write of a further entry end after fewer bytes
-- than it has. Recover then hands on the entries behind the snapshot, without the further one and
-- without an error, if no byte was written or just the header; otherwise it fails.
pub recover_wal-torn :
    (unmarshal : List ℕ → Option Entry) (sw : SegmentedWal) (log : List Written) (w : Written)
    (k snapshot_index : ℕ)
    → Logs unmarshal sw log
    → Readable unmarshal w
    → k < 16 + length w.1
    → recover_wal unmarshal (torn sw w k) snapshot_index
      ≡ done (
          if (k == 0) || (k == 16) then ok (newer snapshot_index (entries_of log)) else err cut_off)
unfolding recover_wal torn
recover_wal-torn unmarshal sw log w k snapshot_index (wss, ws, ((s, (c, (rs, _))), e)) r h =
    let tail = take k (written_bytes w) in
    let quiet = (k == 0) || (k == 16) in
    let enough : length ws < suc (length (sw.active.content ++ tail)) = omega (
      arith,
      length-file_of ws,
      length-append (file_of ws) tail,
      ap length c,
      length-append sw.active.content tail,
    ) in
    let file =
      ap
        (λ l.
          recover_file unmarshal (suc (length (sw.active.content ++ tail))) snapshot_index
            (l ++ tail))
        c
      ∙ (recover_file-tail unmarshal snapshot_index (suc (length (sw.active.content ++ tail))) ws
          tail quiet rs enough (read_entry-torn unmarshal w k r h)) in
    recover_all-last unmarshal snapshot_index sw.segments wss (torn sw w k).active
      (newer snapshot_index (entries_of ws)) quiet s file
    ∙ ap (reported quiet) (
        sym (newer-log_append snapshot_index (joined wss) ws)
        ∙ ap (λ l. newer snapshot_index (entries_of l)) e)
