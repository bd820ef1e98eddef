-- ===== src/Packet/Tests.antt =====
-- Tests of src/packet.rs, on headers that lie in a `ChunkView`.
use yamux_low_mem.Prelude.Word.{IsByte}
use yamux_low_mem.Prelude.{
  All, subst, sym, ℕ, ◌≤◌, ◌≡◌, refl, ap, ◌⊎◌, Option, some, List, [], ◌∷◌, ◌++◌, arith, length,
  get_elem?, drop, done, Result, ok, err,
}
use yamux_low_mem.Chunk.View.{ChunkView, view_of_slice}
use yamux_low_mem.Chunk.View.Laws as ViewLaws
use yamux_low_mem.Chunk.View.Laws.{content}
use yamux_low_mem.Chunk.Reader.{view_reader}
use yamux_low_mem.Chunk.Reader.Laws.{view_reader-IsReader}
use yamux_low_mem.Packet.{
  Header, FrameType, syn_flags, new_header, header_len, ParserError, unknown_type, bits, as_u8,
  read,
}
use yamux_low_mem.Packet.Wire.{IsWide, header_bytes, read-header_bytes, read_total}

abbrev ping : Header
ping = new_header FrameType.ping syn_flags (record { value = 0 }) 77

-- The layout on the wire.
header_bytes-ping : header_bytes ping ≡ 0 ∷ 2 ∷ 0 ∷ 1 ∷ 0 ∷ 0 ∷ 0 ∷ 0 ∷ 0 ∷ 0 ∷ 0 ∷ 77 ∷ []
unfolding header_bytes bits as_u8
header_bytes-ping = refl

ping_length : length (header_bytes ping ++ 9 ∷ []) ≡ 13
unfolding header_bytes
ping_length = refl

abbrev received : ChunkView
received = view_of_slice (header_bytes ping ++ 9 ∷ [])

received_lem : ViewLaws.IsValid received × (content received ≡ header_bytes ping ++ 9 ∷ [])
received_lem = ViewLaws.view_of_slice_lem (header_bytes ping ++ 9 ∷ []) (omega (arith, ping_length))

read-header_bytes_example :
    (b' : ChunkView) × (read received ≡ done (ok (some ping), b'))
    × ViewLaws.IsValid b'
    × (content b' ≡ 9 ∷ [])
read-header_bytes_example =
    read-header_bytes view_reader-IsReader ping received (9 ∷ [])
      (record { id_in = omega arith; length_in = omega arith }) received_lem.0 received_lem.1

-- The type byte is 9.
abbrev bad : List ℕ
bad = 0 ∷ 9 ∷ 0 ∷ 0 ∷ 0 ∷ 0 ∷ 0 ∷ 0 ∷ 0 ∷ 0 ∷ 0 ∷ 0 ∷ []

bad_lem : ViewLaws.IsValid (view_of_slice bad) × (content (view_of_slice bad) ≡ bad)
bad_lem = ViewLaws.view_of_slice_lem bad (omega arith)

bad_bytes : All IsByte bad
bad_bytes = (
  omega arith,
  (
    omega arith,
    (
      omega arith,
      (
        omega arith,
        (
          omega arith,
          (
            omega arith,
            (
              omega arith,
              (omega arith, (omega arith, (omega arith, (omega arith, (omega arith, tt))))),
            ),
          ),
        ),
      ),
    ),
  ),
)

read_total_example :
    (a : Result ParserError (Option Header)) × (b' : ChunkView) × (read (view_of_slice bad)
      ≡ done (a, b'))
    × ViewLaws.IsValid b'
    × (content b' ≡ drop header_len (content (view_of_slice bad)))
    × (((h : Header) × (a ≡ ok (some h)) × IsWide h)
        ⊎ ((t : ℕ) × (4 ≤ t)
            × (get_elem? (content (view_of_slice bad)) 1 ≡ some t)
            × (a ≡ err (unknown_type t))))
read_total_example =
    read_total view_reader-IsReader (view_of_slice bad) bad_lem.0
      (subst (All IsByte) (sym bad_lem.1) bad_bytes) (omega (arith, ap length bad_lem.1))
