-- ===== src/Server/Handler/Chunks.antt =====
-- The frames of a long payload in _send_fragmented_payload (server-py/server.py, lines 128 to 166).
use pus_proj.Common.{
  ℕ, zero, suc, ◌+◌, ◌-◌, ◌^◌, ◌≤◌, ◌<◌, ◌≡◌, refl, sym, ap, ◌∙◌, inl, inr, List, [], ◌∷◌, ◌++◌,
  length, take, drop, leb, ltb, ltb→ge, ltb→lt, ◌==◌, if◌then◌else◌, bit_or, bit_and, Bool-cases,
  false, append-nil, append_assoc, drop_all, drop-drop, length-drop, length-take, arith,
}
use pus_proj.Common.Results.{ok}
use pus_proj.Bytes.{Bytes}
use pus_proj.Server.Protocol.{
  MsgType, encode, max_payload_len, fragmented, last_frag, reserved_flag_mask,
}
use pus_proj.Server.Protocol.RoundTrip.{IsSendable, encode-eq-ok, signed_part}
use pus_proj.Server.Connection.{Conn, Crypto, outgoing, send_frame, ◌>>=◌}
use pus_proj.Server.Handler.Fragments.{chunk_at, flags_at, send_chunks, send_fragmented_payload}

-- The flags of a fragment with `rest` still to send.
abbrev pub flags_before : Bytes → ℕ
flags_before rest = if length rest == 0 then bit_or fragmented last_frag else fragmented

take-append-drop-length : (n : ℕ) (xs : Bytes) → take n xs ++ drop (length (take n xs)) xs ≡ xs
take-append-drop-length zero xs = refl
take-append-drop-length (suc n) [] = refl
take-append-drop-length (suc n) (x ∷ xs) = ap (◌∷◌ x) (take-append-drop-length n xs)

same_end : (n m k a b : ℕ) → k ≡ n - m → (if leb n m then a else b) ≡ (if k == 0 then a else b)
same_end n m k a b e = ground arith

pub flags_before_lem :
    (rest : Bytes)
    → (bit_and (flags_before rest) reserved_flag_mask ≡ 0) × (flags_before rest < 256)
flags_before_lem rest = elim (Bool-cases (length rest == 0)) [
  | inl q ↦ rw q (refl, omega arith)
  | inr q ↦ rw q (refl, omega arith)
]

module _ (c : Crypto) (t : MsgType) (key : Bytes) where
  -- Encoded frames that carry a payload piece by piece, under numbers that count on from `seq`, each
  -- of one byte at least, within the limit and marked as a fragment, and the last one, which alone completes the payload,
  -- marked as the last.
  abbrev pub Pieces : ℕ → List Bytes → Bytes → Type 0
  Pieces seq [] payload = payload ≡ []
  Pieces seq (raw ∷ raws) payload =
      (chunk : Bytes) × (rest : Bytes) × (payload ≡ chunk ++ rest)
      × (1 ≤ length chunk)
      × (length chunk ≤ max_payload_len)
      × (encode c.hmac (outgoing t chunk seq (flags_before rest)) key ≡ ok raw)
      × Pieces (seq + 1) raws rest

  module _ (payload : Bytes) where
    pub chunk_lem :
        (offset : ℕ)
        → offset < length payload
        → let chunk = chunk_at c t payload key offset in
          let rest = drop (offset + length chunk) payload in
          (drop offset payload ≡ chunk ++ rest)
          × (1 ≤ length chunk)
          × (length chunk ≤ max_payload_len)
          × (offset + length chunk ≤ length payload)
          × (flags_at c t payload key offset ≡ flags_before rest)
    chunk_lem offset more =
        let chunk = chunk_at c t payload key offset in
        let width : (offset + max_payload_len) - offset ≡ max_payload_len = omega arith in
        let cut : chunk ≡ take max_payload_len (drop offset payload) =
          ap (λ n. take n (drop offset payload)) width in
        let size = ap length cut ∙ length-take max_payload_len (drop offset payload) in
        let left = length-drop offset payload in
        let behind = length-drop (offset + length chunk) payload in
        let joined : take max_payload_len (drop offset payload)
              ++ drop (length (take max_payload_len (drop offset payload))) (drop offset payload)
            ≡ drop offset payload =
          take-append-drop-length max_payload_len (drop offset payload) in
        (
          sym joined
              ∙ ap (λ ch. ch ++ drop (length ch) (drop offset payload)) (sym cut)
              ∙ ap (λ r. chunk ++ r) (drop-drop offset (length chunk) payload),
          omega (arith, size, left, more),
          omega (arith, size),
          omega (arith, size, left, more),
          same_end (length payload) (offset + length chunk) _ _ _ behind,
        )

    chunks_lem :
        (fuel offset seq : ℕ) (x : Conn)
        → offset ≤ length payload
        → length payload ≤ offset + fuel
        → seq + (length payload - offset) ≤ 2 ^ 32
        → (raws : List Bytes) × Pieces seq raws (drop offset payload)
          × (send_chunks c t payload key fuel offset seq x
              ≡ (ok (seq + length raws), record x { written = x.written ++ raws }))
    unfolding send_chunks send_frame ◌>>=◌
    chunks_lem zero offset seq x within enough fits =
        let none_left : seq + 0 ≡ seq = omega arith in
        ([], drop_all offset payload (omega arith), rw (none_left, append-nil x.written) refl)
    chunks_lem (suc fuel) offset seq x within enough fits =
        elim (Bool-cases (ltb offset (length payload))) [
          | inr done ↦
              let none_left : seq + 0 ≡ seq = omega arith in
              (
                [],
                drop_all offset payload (ltb→ge _ _ done),
                rw (done, none_left, append-nil x.written) refl,
              )
          | inl more ↦
              let chunk = chunk_at c t payload key offset in
              let rest = drop (offset + length chunk) payload in
              let (cut, some_left, small, inside, flags) = chunk_lem offset (ltb→lt _ _ more) in
              let frame = outgoing t chunk seq (flags_before rest) in
              let sendable : IsSendable frame = record {
                measured = refl;
                small = small;
                reserved = (flags_before_lem rest).0;
                version = omega arith;
                flags = (flags_before_lem rest).1;
                seq_id = omega arith;
              } in
              let raw = signed_part frame ++ c.hmac key (signed_part frame) in
              let e : encode c.hmac frame key ≡ ok raw = encode-eq-ok c.hmac frame key sendable in
              let y = record x { written = x.written ++ (raw ∷ []) } in
              let (raws, pieces, sent) =
                chunks_lem fuel (offset + length chunk) (seq + 1) y inside (omega arith)
                  (omega arith) in
              let count : (seq + 1) + length raws ≡ seq + suc (length raws) = omega arith in
              let order = append_assoc x.written (raw ∷ []) raws in
              (
                raw ∷ raws,
                (chunk, rest, cut, some_left, small, e, pieces),
                rw (more, flags, e) (sent ∙ rw (count, order) refl),
              )
        ]

    -- A payload over the limit of one frame is sent whole, in frames that carry its pieces in order,
    -- under the numbers from `seq_id`, all marked FRAGMENTED and only the last one LAST_FRAG; the
    -- result is the number behind them, and the database and the session are left alone. It is so
    -- when the numbers of as many frames as the payload has bytes fit 32 bits.
    pub send_fragmented_payload-Pieces :
        (seq_id : ℕ) (x : Conn)
        → max_payload_len < length payload
        → seq_id + length payload ≤ 2 ^ 32
        → (raws : List Bytes) × Pieces seq_id raws payload
          × (send_fragmented_payload c t payload key seq_id x
              ≡ (ok (seq_id + length raws), record x { written = x.written ++ raws }))
    unfolding send_fragmented_payload
    send_fragmented_payload-Pieces seq_id x long fits =
        let split : leb (length payload) max_payload_len ≡ false = ground arith in
        rw split (chunks_lem (length payload) 0 seq_id x (omega arith) (omega arith) (omega arith))
