-- ===== src/Bytes/Header.antt =====
-- struct.Struct("<BBBII"), the header of a frame in server-py/protocol.py and client-py/framing.py.
use pus_proj.Common.{
  ℕ, ◌+◌, ◌-◌, ◌^◌, ◌<◌, ◌≤◌, Bool-cases, inl, inr, subst, drop_all, All-take, All-drop, ==→eq, ◌≡◌,
  refl, ap, ◌∙◌, sym, [], ◌++◌, arith, length, slice, drop, ◌==◌, if◌then◌else◌, append-nil,
}
use pus_proj.Common.Results.{Error, Result, ok, err, struct_error, ◌>>=◌}
use pus_proj.Bytes.{
  Bytes, IsByte, IsBytes, pack, to_le, of_le, pack-eq-ok, of_le-lt_at, to_le-of_le_at,
}
use pus_proj.Bytes.Fields.{slice-append-drop, length-slice}

-- The five fields, in order.
pub record Header : Type 0 where
  pub version : ℕ
  pub msg_type : ℕ
  pub flags : ℕ
  pub seq_id : ℕ
  pub payload_len : ℕ

unfoldable pub pack_header : Header → Result Bytes
pack_header h = do
  a ← pack 1 h.version
  b ← pack 1 h.msg_type
  c ← pack 1 h.flags
  d ← pack 4 h.seq_id
  e ← pack 4 h.payload_len
  ok (a ++ (b ++ (c ++ (d ++ e))))

read_fields : Bytes → Header
read_fields hdr = record {
  version = of_le (slice 0 1 hdr);
  msg_type = of_le (slice 1 2 hdr);
  flags = of_le (slice 2 3 hdr);
  seq_id = of_le (slice 3 7 hdr);
  payload_len = of_le (slice 7 11 hdr);
}

unfoldable pub unpack_header : Bytes → Result Header
unfolding read_fields
unpack_header hdr = if length hdr == 11 then ok (read_fields hdr) else err struct_error

-- Every field fits its width.
pub record Fits (h : Header) : Type 0 where
  pub version : h.version < 256
  pub msg_type : h.msg_type < 256
  pub flags : h.flags < 256
  pub seq_id : h.seq_id < 2 ^ 32
  pub payload_len : h.payload_len < 2 ^ 32

-- The eleven bytes of a header whose fields fit.
unfoldable pub header_bytes : Header → Bytes
header_bytes h =
    to_le 1 h.version
    ++ (to_le 1 h.msg_type ++ (to_le 1 h.flags ++ (to_le 4 h.seq_id ++ to_le 4 h.payload_len)))

pub pack_header-eq-ok : (h : Header) → Fits h → pack_header h ≡ ok (header_bytes h)
unfolding pack_header header_bytes
pack_header-eq-ok h f = rw (
  pack-eq-ok 1 h.version (omega arith),
  pack-eq-ok 1 h.msg_type (omega arith),
  pack-eq-ok 1 h.flags (omega arith),
  pack-eq-ok 4 h.seq_id (omega arith),
  pack-eq-ok 4 h.payload_len (omega arith),
)

pub pack_header_inv :
    (h : Header) {bs : Bytes} → pack_header h ≡ ok bs → Fits h × (bs ≡ header_bytes h)
unfolding pack_header pack header_bytes
pack_header_inv h e = (ground arith, ground arith)

pub length-header_bytes : (h : Header) → length (header_bytes h) ≡ 11
unfolding header_bytes to_le
length-header_bytes h = refl

pub unpack_header-header_bytes : (h : Header) → Fits h → unpack_header (header_bytes h) ≡ ok h
unfolding unpack_header header_bytes to_le of_le
unpack_header-header_bytes h f = ground arith

-- A slice of a byte string, packed again at its width.
pub repack :
    (i j w : ℕ) (bs : Bytes)
    → IsBytes bs
    → j ≤ length bs
    → i + w ≡ j
    → (of_le (slice i j bs) < 256 ^ w) × (to_le w (of_le (slice i j bs)) ≡ slice i j bs)
repack i j w bs h k e =
    let len : length (slice i j bs) ≡ w = omega (arith, length-slice i j bs (omega arith) k) in
    let bytes : IsBytes (slice i j bs) =
      All-take IsByte (j - i) (drop i bs) (All-drop IsByte i bs h) in
    (of_le-lt_at w (slice i j bs) len bytes, to_le-of_le_at w (slice i j bs) len bytes)

-- The five slices of eleven bytes, put together.
slices :
    (bs : Bytes)
    → length bs ≡ 11
    → slice 0 1 bs ++ (slice 1 2 bs ++ (slice 2 3 bs ++ (slice 3 7 bs ++ slice 7 11 bs))) ≡ bs
slices bs e =
    let last : drop 11 bs ≡ [] = drop_all 11 bs (omega arith) in
    let tail : slice 7 11 bs ≡ drop 7 bs =
      sym (append-nil (slice 7 11 bs))
      ∙ ap (λ zs. slice 7 11 bs ++ zs) (sym last)
      ∙ slice-append-drop 7 11 bs (omega arith) in
    rw (
      tail,
      slice-append-drop 3 7 bs (omega arith),
      slice-append-drop 2 3 bs (omega arith),
      slice-append-drop 1 2 bs (omega arith),
      slice-append-drop 0 1 bs (omega arith),
    )

header_bytes-read_fields :
    (bs : Bytes)
    → IsBytes bs
    → length bs ≡ 11
    → Fits (read_fields bs) × (header_bytes (read_fields bs) ≡ bs)
unfolding read_fields header_bytes
header_bytes-read_fields bs b e =
    let p1 = repack 0 1 1 bs b (omega arith) (omega arith) in
    let p2 = repack 1 2 1 bs b (omega arith) (omega arith) in
    let p3 = repack 2 3 1 bs b (omega arith) (omega arith) in
    let p4 = repack 3 7 4 bs b (omega arith) (omega arith) in
    let p5 = repack 7 11 4 bs b (omega arith) (omega arith) in
    (
      record { version = p1.0; msg_type = p2.0; flags = p3.0; seq_id = p4.0; payload_len = p5.0 },
      rw (p1.1, p2.1, p3.1, p4.1, p5.1) (slices bs e),
    )

-- Every eleven bytes are the bytes of the header that is read from them.
pub unpack_header_inv :
    (bs : Bytes) {h : Header}
    → IsBytes bs
    → unpack_header bs ≡ ok h
    → Fits h × (header_bytes h ≡ bs) × (length bs ≡ 11)
unpack_header_inv bs {h} b e = elim (Bool-cases (length bs == 11)) [
  | inl t ↦
      let len : length bs ≡ 11 = ==→eq _ _ t in
      let (f, r) = header_bytes-read_fields bs b len in
      let same : read_fields bs ≡ h = unfold unpack_header in ground arith in
      (subst Fits same f, ap header_bytes (sym same) ∙ r, len)
  | inr t ↦ unfold unpack_header in cc
]

pub unpack_header_error : (bs : Bytes) {e : Error} → unpack_header bs ≡ err e → e ≡ struct_error
unfolding unpack_header
unpack_header_error bs p = ground arith
