-- ===== src/Packet/Safe.antt =====
-- What a reader accepts on any packet, and that it touches no byte outside of it.
use dimq.Packet.Parse.{chain, Parse, after, Agrees, IsReadable, SameBuffer, unread}
use dimq.Packet.Format.{
  format_uint32, parse_uint32, parse_byte, parse_string, format_uint16, parse_valid, parse_text,
  format_binary, format_varint, parse_body, parse_uint16, parse_binary, parse_varint, varint_digits,
}
use dimq.Prelude.{
  inr, ◌∙◌, inl, false, ◌==◌, some, length-take, take-append-drop, subst, ◌*◌, ◌++◌, ◌%◌, arith, ℕ,
  suc, zero, ◌+◌, ◌<◌, ◌^◌, ◌≡◌, ◌≢◌, List, [], ◌∷◌, length, refl,
}
use dimq.Utf8.Decides.{validate_utf8_decides}
use dimq.Packet.Read.{read_string-Refines, read_varint-Refines}
use dimq.Utf8.Sound.{validate_utf8-Encodes, Encodes, AllBytes}
use dimq.Word.{u16, u32}
use dimq.Utf8.Spec.{encode_all}
use dimq.Utf8.{validate_utf8}
use dimq.Packet.{read_string, read_varint, Heap, Packet}
use dimq.Result.{success, Status, Result, ok, err, fault}
use dimq.Packet.Laws.{parse_varint_canonical}

varint_digits-ne-fault :
    (k acc mult count : ℕ) (bs : List ℕ) (h : Heap) → varint_digits k acc mult count bs h ≢ fault
unfolding varint_digits
varint_digits-ne-fault zero acc mult count bs h e = cc
varint_digits-ne-fault (suc k) acc mult count [] h e = cc
varint_digits-ne-fault (suc k) acc mult count (b ∷ bs) h e = ground (
  arith,
  varint_digits-ne-fault k (u32 (acc + b % 128 * mult)) (u32 (mult * 128)) (count + 1) bs h,
)

pub parse_varint-ne-fault : (bs : List ℕ) (h : Heap) → parse_varint bs h ≢ fault
unfolding parse_varint
parse_varint-ne-fault bs h = varint_digits-ne-fault 4 0 1 0 bs h

pub parse_uint16-ne-fault : (bs : List ℕ) (h : Heap) → parse_uint16 bs h ≢ fault
unfolding parse_uint16
parse_uint16-ne-fault [] h e = cc
parse_uint16-ne-fault (a ∷ []) h e = cc
parse_uint16-ne-fault (a ∷ b ∷ bs) h e = cc

pub parse_binary-ne-fault : (bs : List ℕ) (h : Heap) → parse_binary bs h ≢ fault
unfolding parse_binary parse_body
parse_binary-ne-fault bs h = go (parse_uint16 bs h) (parse_uint16-ne-fault bs h)
  where
    go : (r : Result (ℕ × List ℕ × Heap)) → r ≢ fault → after r parse_body ≢ fault
    go (ok (n, bs', h')) p = ground arith
    go (err e) p = λ q. cc
    go fault p = absurd (p refl)

-- A reader that refines a parser without faults answers as the parser does.
pub Agrees-ok_inv :
    {A : Type 0} (p q : Packet) (a : A) (y : Result (A × List ℕ × Heap))
    → Agrees p (ok a, q) y
    → y ≢ fault
    → y ≡ ok (a, unread q, q.heap)
Agrees-ok_inv p q a (ok (b, r, h)) (e, u, v, w, z) n = rw (e, u, v) refl
Agrees-ok_inv p q a (err e) g n = absurd g
Agrees-ok_inv p q a fault g n = absurd (n refl)

pub Agrees-same :
    {A : Type 0} (p q : Packet) (a : A) (y : Result (A × List ℕ × Heap))
    → Agrees p (ok a, q) y
    → y ≢ fault
    → SameBuffer p q
Agrees-same p q a (ok (b, r, h)) (e, u, v, w, z) n = z
Agrees-same p q a (err e) g n = absurd g
Agrees-same p q a fault g n = absurd (n refl)

pub Agrees-ne-fault :
    {A : Type 0} (p : Packet) (x : Result A × Packet) (y : Result (A × List ℕ × Heap))
    → Agrees p x y
    → y ≢ fault
    → x.0 ≢ fault
Agrees-ne-fault p (ok a, q) y g n e = cc
Agrees-ne-fault p (err a, q) y g n e = cc
Agrees-ne-fault p (fault, q) (ok a) g n e = g
Agrees-ne-fault p (fault, q) (err a) g n e = g
Agrees-ne-fault p (fault, q) fault g n e = n refl

-- On every readable packet `packet__read_varint` touches no byte outside the packet; and where it
-- succeeds, the bytes that it took are the one shortest form of its value, which is below 2^28.
pub read_varint_canonical :
    (p : Packet)
    → IsReadable p
    → AllBytes (unread p)
    → ((read_varint p).0 ≢ fault)
      × ((w n : ℕ) (q : Packet)
          → read_varint p ≡ (ok (w, n), q)
          → (w < 2 ^ 28)
            × (unread p ≡ format_varint w ++ unread q)
            × (n ≡ length (format_varint w))
            × (q.payload ≡ p.payload))
read_varint_canonical p r b =
    let g = read_varint-Refines p r in
    let n = parse_varint-ne-fault (unread p) p.heap in
    (
      Agrees-ne-fault p (read_varint p) _ g n,
      λ w k q e.
          let g' = subst (λ x. Agrees p x (parse_varint (unread p) p.heap)) e g in
          let (lt, split, size, _) =
            parse_varint_canonical p.heap q.heap w k (unread q) (unread p) b
              (Agrees-ok_inv p q (w, k) _ g' n) in
          (lt, split, size, (Agrees-same p q (w, k) _ g' n).same_payload),
    )

pub AllBytes-join : (xs ys : List ℕ) → AllBytes xs → AllBytes ys → AllBytes (xs ++ ys)
AllBytes-join [] ys a b = b
AllBytes-join (x ∷ xs) ys a b = (a.0, AllBytes-join xs ys a.1 b)

parse_valid-ok :
    (str bs : List ℕ) (h : Heap) (c : Status) (s rest : List ℕ) (g : Heap)
    → parse_valid str c bs h ≡ ok (s, rest, g)
    → (c ≡ success) × (str ≡ s) × (bs ≡ rest) × (h ≡ g)
parse_valid-ok str bs h (ok tt) s rest g e = ground arith
parse_valid-ok str bs h (err x) s rest g e = cc
parse_valid-ok str bs h fault s rest g e = cc

Encodes-nil : Encodes []
Encodes-nil = ([], tt, unfold encode_all in refl)

parse_text-ok :
    (str bs : List ℕ) (h : Heap) (s rest : List ℕ) (g : Heap)
    → AllBytes str
    → parse_text str bs h ≡ ok (s, rest, g)
    → Encodes s × (str ≡ s) × (bs ≡ rest)
unfolding parse_text
parse_text-ok [] bs h s rest g b e =
    let p : [] ≡ s = ground arith in (subst Encodes p Encodes-nil, p, ground arith)
parse_text-ok (x ∷ xs) bs h s rest g b e =
    let str = x ∷ xs in
    let nonempty : (suc (length xs) == 0) ≡ false = ground arith in
    let (v, p, q, _) =
      parse_valid-ok str bs h (validate_utf8 (some (str ++ 0 ∷ [])) (length str)) s rest g
        (rw nonempty at e) in
    let bytes = AllBytes-join str (0 ∷ []) b (omega arith) in
    (subst Encodes p (validate_utf8-Encodes str [] bytes v).1, p, q)

parse_body-ok :
    (n : ℕ) (bs : List ℕ) (h : Heap) (s rest : List ℕ) (g : Heap)
    → parse_body n bs h ≡ ok (s, rest, g)
    → (length s ≡ n) × (bs ≡ s ++ rest)
unfolding parse_body
parse_body-ok n bs h s rest g e = ground (arith, take-append-drop n bs, length-take n bs)

pub parse_binary-ok :
    (bs : List ℕ) (h : Heap) (s rest : List ℕ) (g : Heap)
    → AllBytes bs
    → parse_binary bs h ≡ ok (s, rest, g)
    → (length s < 2 ^ 16) × (bs ≡ format_binary s ++ rest)
unfolding parse_binary parse_uint16 format_binary format_uint16
parse_binary-ok [] h s rest g b e = cc
parse_binary-ok (x ∷ []) h s rest g b e = cc
parse_binary-ok (x ∷ y ∷ bs) h s rest g b e =
    let (len, split) = parse_body-ok (u16 (x * 256 + y)) bs h s rest g e in
    (omega (arith, len), ground (arith, len, split))

AllBytes-left : (xs ys : List ℕ) → AllBytes (xs ++ ys) → AllBytes xs
AllBytes-left [] ys a = tt
AllBytes-left (x ∷ xs) ys a = (a.0, AllBytes-left xs ys a.1)

-- A field that was parsed consists of bytes.
field-AllBytes : (s rest bs : List ℕ) → AllBytes bs → bs ≡ format_binary s ++ rest → AllBytes s
unfolding format_binary format_uint16
field-AllBytes s rest bs b e = AllBytes-left s rest (subst AllBytes e b).1.1

parse_text-ne-fault :
    (str bs : List ℕ) (h : Heap) → AllBytes str → length str < 2 ^ 16 → parse_text str bs h ≢ fault
unfolding parse_text
parse_text-ne-fault str bs h b l =
    elim (validate_utf8_decides str [] (AllBytes-join str (0 ∷ []) b (omega arith)) (omega arith)) [
      | inl (v, _) ↦ rw v (ground arith)
      | inr (v, _) ↦ rw v (ground arith)
    ]

-- A parsed string is there as a field of bytes, and then as text.
pub parse_string-ok :
    (bs : List ℕ) (h : Heap)
    → AllBytes bs
    → (parse_string bs h ≢ fault)
      × ((s rest : List ℕ) (g : Heap)
          → parse_string bs h ≡ ok (s, rest, g)
          → Encodes s × (length s < 2 ^ 16) × (bs ≡ format_binary s ++ rest))
unfolding parse_string
parse_string-ok bs h b = go (parse_binary bs h) refl
  where
    go :
        (y : Result (List ℕ × List ℕ × Heap))
        → parse_binary bs h ≡ y
        → (after y parse_text ≢ fault)
          × ((s rest : List ℕ) (g : Heap)
              → after y parse_text ≡ ok (s, rest, g)
              → Encodes s × (length s < 2 ^ 16) × (bs ≡ format_binary s ++ rest))
    go (ok (str, r, k)) e =
        let (len, split) = parse_binary-ok bs h str r k b e in
        let bytes = field-AllBytes str r bs b split in
        (
          parse_text-ne-fault str r k bytes len,
          λ s rest g t.
              let (enc, p, q) = parse_text-ok str r k s rest g bytes t in
              (enc, subst (λ u. length u < 2 ^ 16) p len, split ∙ rw (p, q) refl),
        )
    go (err x) e = (λ q. cc, λ s rest g t. absurd (ground arith))
    go fault e = absurd (parse_binary-ne-fault bs h e)

-- On every readable packet of bytes `packet__read_string` touches no byte outside the packet; and a
-- string that it returns is well-formed text of allowed characters, and what it took is that text
-- behind its length in two bytes.
pub read_string_sound :
    (p : Packet)
    → IsReadable p
    → AllBytes (unread p)
    → ((read_string p).0 ≢ fault)
      × ((s : List ℕ) (q : Packet)
          → read_string p ≡ (ok s, q)
          → Encodes s
            × (length s < 2 ^ 16)
            × (unread p ≡ format_binary s ++ unread q)
            × (q.payload ≡ p.payload))
read_string_sound p r b =
    let g = read_string-Refines p r in
    let (n, inv) = parse_string-ok (unread p) p.heap b in
    (
      Agrees-ne-fault p (read_string p) _ g n,
      λ s q e.
          let g' = subst (λ x. Agrees p x (parse_string (unread p) p.heap)) e g in
          let (enc, len, split) = inv s (unread q) q.heap (Agrees-ok_inv p q s _ g' n) in
          (enc, len, split, (Agrees-same p q s _ g' n).same_payload),
    )

pub parse_byte-ok :
    (bs : List ℕ) (h : Heap) (b : ℕ) (rest : List ℕ) (g : Heap)
    → parse_byte bs h ≡ ok (b, rest, g)
    → bs ≡ b ∷ rest
unfolding parse_byte
parse_byte-ok [] h b rest g e = cc
parse_byte-ok (x ∷ bs) h b rest g e = ground arith

pub parse_uint16-ok :
    (bs : List ℕ) (h : Heap) (w : ℕ) (rest : List ℕ) (g : Heap)
    → AllBytes bs
    → parse_uint16 bs h ≡ ok (w, rest, g)
    → (w < 2 ^ 16) × (bs ≡ format_uint16 w ++ rest)
unfolding parse_uint16 format_uint16
parse_uint16-ok [] h w rest g b e = cc
parse_uint16-ok (x ∷ []) h w rest g b e = cc
parse_uint16-ok (x ∷ y ∷ bs) h w rest g b e = ground arith

pub parse_uint32-ok :
    (bs : List ℕ) (h : Heap) (w : ℕ) (rest : List ℕ) (g : Heap)
    → AllBytes bs
    → parse_uint32 bs h ≡ ok (w, rest, g)
    → (w < 2 ^ 32) × (bs ≡ format_uint32 w ++ rest)
unfolding parse_uint32 format_uint32
parse_uint32-ok [] h w rest g b e = cc
parse_uint32-ok (x ∷ []) h w rest g b e = cc
parse_uint32-ok (x ∷ y ∷ []) h w rest g b e = cc
parse_uint32-ok (x ∷ y ∷ z ∷ []) h w rest g b e = cc
parse_uint32-ok (x ∷ y ∷ z ∷ t ∷ bs) h w rest g b e = ground arith

pub chain-ok :
    {A B : Type 0} (s : Parse A) (t : A → Parse B) (bs : List ℕ) (h : Heap) (x : B × List ℕ × Heap)
    → chain s t bs h ≡ ok x
    → (y : A × List ℕ × Heap) × (s bs h ≡ ok y) × (t y.0 y.1 y.2 ≡ ok x)
chain-ok {A} s t bs h x e = go (s bs h) refl e
  where
    go :
        (r : Result (A × List ℕ × Heap))
        → s bs h ≡ r
        → after r t ≡ ok x
        → (y : A × List ℕ × Heap) × (s bs h ≡ ok y) × (t y.0 y.1 y.2 ≡ ok x)
    go (ok y) p q = (y, p, q)
    go (err z) p q = absurd (ground arith)
    go fault p q = absurd (ground arith)
