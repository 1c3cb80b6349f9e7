-- ===== src/Client/Encodes.antt =====
-- When a way to read undoes a way to write, with anything before and behind.
use pus_proj.Common.{
  ℕ, ◌+◌, ◌-◌, ◌^◌, ◌≤◌, ◌<◌, ◌≡◌, refl, sym, ap, ◌∙◌, ◌++◌, length, drop, slice, arith,
  append_assoc, append-nil, length-append, length-drop, drop-drop, take-append, drop-append,
  Bool-cases, inl, inr, ltb, ltb→lt, [],
}
use pus_proj.Common.Results.{Result, ok, err, Result-cases, >>=-eq-ok}
use pus_proj.Common.Results
use pus_proj.Bytes.{Bytes, to_le, of_le, pack, length-to_le, of_le-to_le}
use pus_proj.Text.{Text, encode_text, decode_text}
use pus_proj.Text.RoundTrip.{decode_text-encode_text}
use pus_proj.Client.Writer.{Buffer}
use pus_proj.Client.Writer
use pus_proj.Client.Reader.{ByteReader, Read, pure, lift, follow, ◌>>=◌}
use pus_proj.Client.Reader

-- `xs` is what the reader has still to read.
pub record At (r : ByteReader) (xs : Bytes) : Type 0 where
  pub ahead : drop r.pos r.buf ≡ xs
  pub within : r.pos ≤ length r.buf

pub record Reads {ℓ} {A : Type ℓ} (m : Read A) (bs : Bytes) (a : A) : Type ℓ where
  pub run :
      (r : ByteReader) (rest : Bytes)
      → At r (bs ++ rest)
      → (r' : ByteReader) × (m r ≡ ok (a, r')) × At r' rest

pub record Encodes {ℓ} {A : Type ℓ} (m : Read A) (write : Buffer → Result Buffer) (a : A)
    : Type ℓ where
  pub invert :
      (w : Buffer) {w' : Buffer} → write w ≡ ok w' → (bs : Bytes) × (w' ≡ w ++ bs) × Reads m bs a

At-step :
    (r : ByteReader) (bs rest : Bytes)
    → At r (bs ++ rest)
    → (r.pos + length bs ≤ length r.buf)
      × (slice r.pos (r.pos + length bs) r.buf ≡ bs)
      × At (record r { pos = r.pos + length bs }) rest
At-step r bs rest h =
    let size = ap length h.ahead in
    let len : r.pos + length bs ≤ length r.buf =
      omega (arith, size, length-drop r.pos r.buf, length-append bs rest, h.within) in
    let n : r.pos + length bs - r.pos ≡ length bs = omega arith in
    (
      len,
      rw (n, h.ahead) (take-append (length bs) bs rest refl),
      record {
        ahead =
            sym (drop-drop r.pos (length bs) r.buf)
            ∙ ap (drop (length bs)) h.ahead
            ∙ drop-append (length bs) bs rest refl;
        within = len;
      },
    )

pub Reads-raw : (n : ℕ) (bs : Bytes) → length bs ≡ n → Reads (Reader.raw n) bs bs
unfolding Reader.raw
Reads-raw n bs e = record {
  run = λ r rest h.
      let (len, cut, next) = At-step r bs rest h in
      (record r { pos = r.pos + length bs }, rw (← e) (ground (arith, len, cut)), next);
}

module _ {ℓ κ} {A : Type ℓ} {B : Type κ} where
  pub Reads-bind :
      (m : Read A) (f : A → Read B) {bs cs : Bytes} {a : A} {b : B}
      → Reads m bs a
      → Reads (f a) cs b
      → Reads (m >>= f) (bs ++ cs) b
  unfolding ◌>>=◌
  Reads-bind m f {bs} {cs} p q = record {
    run = λ r rest h.
        let (r1, e1, h1) =
          p.run r (cs ++ rest)
            (record { ahead = h.ahead ∙ append_assoc bs cs rest; within = h.within }) in
        let (r2, e2, h2) = q.run r1 rest h1 in (r2, rw e1 e2, h2);
  }

  pub Encodes-bind :
      (m : Read A) (f : A → Read B) (g h : Buffer → Result Buffer) {a : A} {b : B}
      → Encodes m g a
      → Encodes (f a) h b
      → Encodes (m >>= f) (λ w. Results.◌>>=◌ (g w) h) b
  Encodes-bind m f g h p q = record {
    invert = λ w e.
        let (w1, e1, e2) = >>=-eq-ok (g w) h e in
        let (bs, s1, r1) = p.invert w e1 in
        let (cs, s2, r2) = q.invert w1 e2 in
        (bs ++ cs, s2 ∙ ap (λ v. v ++ cs) s1 ∙ append_assoc w bs cs, Reads-bind m f r1 r2);
  }

module _ {ℓ} {A : Type ℓ} where
  pub Reads-pure : (a : A) → Reads (pure a) [] a
  unfolding pure
  Reads-pure a = record { run = λ r rest h. (r, refl, h) }

  pub Encodes-pure : (a : A) → Encodes (pure a) ok a
  Encodes-pure a = record { invert = λ w e. ([], cc (append-nil w), Reads-pure a) }

-- A last field, and what is made of it.
pub Encodes-last {ℓ κ} :
    {A : Type ℓ} {B : Type κ} (m : Read A) (g : Buffer → Result Buffer) (f : A → B) {a : A}
    → Encodes m g a
    → Encodes (m >>= λ x. pure (f x)) g (f a)
Encodes-last m g f {a} p = record {
  invert =
      λ w e. (Encodes-bind m (λ x. pure (f x)) g ok p (Encodes-pure (f a))).invert w (rw e refl);
}

pub Reads-field : (n v : ℕ) → v < 256 ^ n → Reads (Reader.field n) (to_le n v) v
unfolding Reader.field
Reads-field n v h =
    let last : Reads (pure (of_le (to_le n v))) [] v = rw (of_le-to_le n v h) (Reads-pure v) in
    rw append-nil at (
      Reads-bind (Reader.raw n) (λ b. pure (of_le b)) (Reads-raw n (to_le n v) (length-to_le n v))
        last)

Encodes-pack :
    (n v : ℕ) → Encodes (Reader.field n) (λ w. Results.◌>>=◌ (pack n v) (λ b. ok (w ++ b))) v
unfolding pack
Encodes-pack n v = record {
  invert = λ w e. elim (Bool-cases (ltb v (256 ^ n))) [
    | inl fits ↦ (to_le n v, cc (rw fits at e), Reads-field n v (ltb→lt v _ fits))
    | inr big ↦ cc (rw big at e)
  ];
}

pub Encodes-u16 : (v : ℕ) → Encodes Reader.u16 (Writer.u16 v) v
unfolding Writer.u16
Encodes-u16 v = Encodes-pack 2 v

pub Encodes-u32 : (v : ℕ) → Encodes Reader.u32 (Writer.u32 v) v
unfolding Writer.u32
Encodes-u32 v = Encodes-pack 4 v

pub Encodes-u64 : (v : ℕ) → Encodes Reader.u64 (Writer.u64 v) v
unfolding Writer.u64
Encodes-u64 v = Encodes-pack 8 v

pub Encodes-raw : (n : ℕ) (b : Bytes) → length b ≡ n → Encodes (Reader.raw n) (Writer.raw b) b
unfolding Writer.raw
Encodes-raw n b h = record { invert = λ w e. (b, cc, Reads-raw n b h) }

pub Encodes-lpblob : (b : Bytes) → Encodes Reader.lpblob (Writer.lpblob b) b
unfolding Reader.lpblob Writer.lpblob
Encodes-lpblob b =
    Encodes-bind Reader.u32 (λ n. Reader.raw n) (Writer.u32 (length b)) (Writer.raw b)
      (Encodes-u32 (length b)) (Encodes-raw (length b) b refl)

-- A text behind the length of its bytes.
pub Encodes-lpstr : (s : Text) → Encodes Reader.lpstr (Writer.lpstr s) s
unfolding Reader.lpstr Writer.lpstr Writer.raw lift pure
Encodes-lpstr s = record {
  invert = λ w e. elim (Result-cases (encode_text s)) [
    | inr (x, p) ↦ cc (rw p at e)
    | inl (b, p) ↦ elim (Bool-cases (ltb 0xFFFF (length b))) [
      | inl long ↦ cc (rw (p, long) at e)
      | inr short ↦
          let last : Encodes (lift (decode_text b)) ok s =
            rw (decode_text-encode_text s p) (Encodes-pure s) in
          let bytes =
            Encodes-bind (Reader.raw (length b)) (λ x. lift (decode_text x)) (Writer.raw b) ok
              (Encodes-raw (length b) b refl) last in
          (Encodes-bind Reader.u16 (λ n. Reader.raw n >>= λ x. lift (decode_text x))
              (Writer.u16 (length b)) (Writer.raw b) (Encodes-u16 (length b)) bytes).invert
            w (rw (p, short) at e)
    ]
  ];
}
