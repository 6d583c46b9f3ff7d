-- ===== src/Frame/Sized.antt =====
-- lib/packet_dimq.c: what `packet__alloc` takes, and the limit of `packet__check_oversize`.
use dimq.Prelude.{
  ◌∙◌, sym, ap, ◌%◌, ◌==◌, ltb, Bool-cases, List, [], ◌∷◌, ℕ, suc, ◌+◌, ◌/◌, ◌≡◌, ◌≤◌, ◌<◌, inl,
  inr, refl, arith, Bool, true, false, length,
}
use dimq.Result.{Result, ok, err, fault, success, payload_size}
use dimq.Packet.Format.{format_varint}
use dimq.Packet.{varint_bytes}
use dimq.Frame.Alloc.{encode, OutPacket, alloc, check_oversize}

-- How many bytes the loop writes
pub length-encode : (n : ℕ) → n < 268435456 → length (encode 5 n) ≡ varint_bytes n
unfolding encode varint_bytes
length-encode n lt = elim (Bool-cases (ltb 0 (n / 128))) [
  | inr t ↦ rw t (ground (arith, t))
  | inl t ↦ rw t (elim (Bool-cases (ltb 0 (n / 128 / 128))) [
    | inr u ↦ rw u (ground (arith, t, u))
    | inl u ↦ rw u (elim (Bool-cases (ltb 0 (n / 128 / 128 / 128))) [
      | inr v ↦ rw v (ground (arith, t, u, v))
      | inl v ↦
          let w : ltb 0 (n / 128 / 128 / 128 / 128) ≡ false = ground (arith, lt) in
          rw (v, w) (ground (arith, t, u, v, lt))
    ])
  ])
]

length-encode_large : (n : ℕ) → 268435456 ≤ n → n < 4294967296 → length (encode 5 n) ≡ 5
unfolding encode
length-encode_large n le lt =
    let t : ltb 0 (n / 128) ≡ true = ground (arith, le) in
    let u : ltb 0 (n / 128 / 128) ≡ true = ground (arith, le) in
    let v : ltb 0 (n / 128 / 128 / 128) ≡ true = ground (arith, le) in
    let w : ltb 0 (n / 128 / 128 / 128 / 128) ≡ true = ground (arith, le) in
    let x : ltb 0 (n / 128 / 128 / 128 / 128 / 128) ≡ false = ground (arith, lt) in
    rw (t, u, v, w, x) refl

varint_bytes_bound : (n : ℕ) → n < 268435456 → varint_bytes n ≤ 4
unfolding varint_bytes
varint_bytes_bound n lt = ground (arith, lt)

-- The loop writes the digits of the standard.
encode-format_varint : (n : ℕ) → n < 268435456 → encode 5 n ≡ format_varint n
unfolding encode format_varint
encode-format_varint n lt =
    let second : n / 128 / 128 ≡ n / 16384 = omega arith in
    elim (Bool-cases (ltb 0 (n / 128))) [
      | inr t ↦
          let a : ltb n 128 ≡ true = ground (arith, t) in
          let b : n % 128 ≡ n = ground (arith, t) in rw (t, a, b) refl
      | inl t ↦
          let a : ltb n 128 ≡ false = ground (arith, t) in
          rw (t, a)
            (elim (Bool-cases (ltb 0 (n / 128 / 128))) [
              | inr u ↦
                  let b : ltb n 16384 ≡ true = ground (arith, u) in
                  let c : n / 128 % 128 ≡ n / 128 = ground (arith, u) in rw (u, b, c) refl
              | inl u ↦
                  let b : ltb n 16384 ≡ false = ground (arith, u) in
                  rw (u, b)
                    (elim (Bool-cases (ltb 0 (n / 128 / 128 / 128))) [
                      | inr v ↦
                          let c : ltb n 2097152 ≡ true = ground (arith, v) in
                          let d : n / 128 / 128 % 128 ≡ n / 16384 = ground (arith, v) in
                          rw (v, c, d) refl
                      | inl v ↦
                          let c : ltb n 2097152 ≡ false = ground (arith, v) in
                          let d : n / 128 / 128 / 128 % 128 ≡ n / 2097152 = ground (arith, lt) in
                          let w : ltb 0 (n / 128 / 128 / 128 / 128) ≡ false = ground (arith, lt) in
                          rw (v, w, c, d) (rw second refl)
                    ])
            ])
    ]

-- What a packet starts with
pub alloc-header :
    (command n : ℕ) (out : OutPacket)
    → n < 268435456
    → alloc true command n ≡ ok out
    → out.header ≡ command ∷ encode 5 n
unfolding alloc
alloc-header command n out lt made =
    let len = length-encode n lt in
    let few = varint_bytes_bound n lt in
    let t : (length (encode 5 n) == 5) ≡ false = ground (arith, len, few) in
    let opened : ◌≡◌ {A = Result OutPacket}
        (ok (record {
          header = command ∷ encode 5 n;
          packet_length = (n + 1 + length (encode 5 n)) % 4294967296;
          pos = 1 + length (encode 5 n);
        }))
        (ok out) =
      rw (alloc, t) at made in
    ap (λ (r : Result OutPacket). header_of r) (sym opened)
  where
    header_of : Result OutPacket → List ℕ
    header_of (ok o) = o.header
    header_of (err e) = []
    header_of fault = []

-- For a remaining length of 32 bits, `packet__alloc` that is given memory makes a packet exactly where
-- the length is below 2^28: then the bytes that are set are the command and the length as a variable
-- byte integer of the standard, as many as packet__varint_bytes says and one more, `packet_length` is
-- the number of all bytes, and the fields go on behind the header. Any other length is refused with
-- dimq_ERR_PAYLOAD_SIZE.
pub alloc_bounds :
    (command n : ℕ)
    → n < 4294967296
    → (n < 268435456
        → (out : OutPacket) × (alloc true command n ≡ ok out)
          × (out.header ≡ command ∷ format_varint n)
          × (length out.header ≡ 1 + varint_bytes n)
          × (out.packet_length ≡ n + length out.header)
          × (out.pos ≡ length out.header))
      × (268435456 ≤ n → (malloc : Bool) → alloc malloc command n ≡ err payload_size)
unfolding alloc
alloc_bounds command n small = (
  (λ lt.
      let len = length-encode n lt in
      let few = varint_bytes_bound n lt in
      let t : (length (encode 5 n) == 5) ≡ false = ground (arith, len, few) in
      (
        record {
          header = command ∷ encode 5 n;
          packet_length = (n + 1 + length (encode 5 n)) % 4294967296;
          pos = 1 + length (encode 5 n);
        },
        rw (alloc, t) refl,
        ap (λ digits. command ∷ digits) (encode-format_varint n lt),
        ap suc len ∙ omega arith,
        omega (arith, len, few, lt),
        omega arith,
      )),
  (λ le malloc. rw (alloc, length-encode_large n le small) refl),
)

-- Where the remaining length and its own bytes are together as large as the largest packet that the
-- other side takes, `packet__check_oversize` lets it pass, and the packet that `packet__alloc` makes of
-- it is one byte larger.
pub check_oversize_overruns :
    (command n maximum_packet_size : ℕ)
    → n < 268435456
    → n + varint_bytes n ≡ maximum_packet_size
    → (check_oversize maximum_packet_size n ≡ success)
      × (out : OutPacket) × (alloc true command n ≡ ok out)
      × (out.packet_length ≡ maximum_packet_size + 1)
unfolding check_oversize
check_oversize_overruns command n maximum_packet_size lt same =
    let (out, made, bytes, header, size, pos) = (alloc_bounds command n (omega (arith, lt))).0 lt in
    let few = varint_bytes_bound n lt in
    (ground (arith, same, few, lt), out, made, omega (arith, size, header, same))
