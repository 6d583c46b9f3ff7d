-- ===== src/Property/Written.antt =====
-- `property__get_length_all` and `property__write_all` against the format.
use dimq.Prelude.{
  refl, sym, length-append, ◌∙◌, ap, ℕ, suc, ◌+◌, ◌<◌, ◌^◌, ◌≡◌, List, [], ◌∷◌, ◌++◌, length, true,
  arith, subst,
}
use dimq.Property.Format.{
  fits_text_pair, Fits-Fitting, fits_binary, fits_text, fits_variable, fits_four_bytes,
  fits_two_bytes, fits_byte, Fitting, length-format_property, write_kind-read_kind,
  length_kind-read_kind, Fits-supported, read_kind-lt, AllFit, Fits, format_value, format_property,
  format_properties,
}
use dimq.Word.{u32}
use dimq.Packet.{varint_bytes, write_varint, Packet}
use dimq.Packet.RoundTrip.{length-format_varint, length-format_binary}
use dimq.Result.{success, ok}
use dimq.Packet.Format.{format_uint32, format_varint, format_uint16, format_binary}
use dimq.Property.Kinds.{Property, Value, Kind, read_kind}
use dimq.Property.{
  write_value, write_property, write_properties, write_all, value_length, get_length, sum_lengths,
  get_length_all, get_remaining_length,
}
use dimq.Packet.Write.{
  Writes, Writes-bind, write_byte-Writes, write_bytes-Writes, write_uint16-Writes,
  write_uint32-Writes, write_string-Writes, write_varint-Writes, return-Writes, HasRoom,
}

value_length-Fits :
    (k : Kind) (p : Property)
    → Fits k p.value p.name
    → value_length k p ≡ ok (suc (length (format_value k p.value p.name)))
unfolding value_length format_value format_uint16 format_uint32 format_varint
value_length-Fits k p f = go (Fits-Fitting k p.value p.name f)
  where
    go :
        {k : Kind} {v : Value} {name : List ℕ}
        → Fitting k v name
        → value_length k (record p { value = v; name = name })
          ≡ ok (suc (length (format_value k v name)))
    go (fits_byte {v = v} {name = name} l) = refl
    go (fits_two_bytes {v = v} {name = name} l) = refl
    go (fits_four_bytes {v = v} {name = name} l) = refl
    go (fits_variable {v = v} {name = name} l) = ground arith
    go (fits_text {s = s} {name = name} l enc) = ap ok (omega (arith, length-format_binary s))
    go (fits_binary {s = s} {name = name} l) = ap ok (omega (arith, length-format_binary s))
    go (fits_text_pair {s = s} {name = name} l enc l1 enc1) = ap ok (
        omega (
          arith,
          length-append (format_binary name) (format_binary s),
          length-format_binary s,
          length-format_binary name,
        ))

get_length-Fits :
    (p : Property)
    → Fits (read_kind p.identifier) p.value p.name
    → get_length p ≡ ok (length (format_property p))
unfolding get_length
get_length-Fits p f =
    rw (length_kind-read_kind p.identifier) (value_length-Fits (read_kind p.identifier) p f)
    ∙ ap ok (sym (length-format_property p f))

sum_lengths-Fits :
    (acc : ℕ) (ps : List Property)
    → AllFit ps
    → acc + length (format_properties ps) < 2 ^ 32
    → sum_lengths acc ps ≡ ok (acc + length (format_properties ps))
unfolding sum_lengths format_properties
sum_lengths-Fits acc [] f l = ap ok (omega arith)
sum_lengths-Fits acc (p ∷ ps) f l =
    let len = length-append (format_property p) (format_properties ps) in
    let e : u32 (acc + length (format_property p)) ≡ acc + length (format_property p) =
      omega (arith, l, len) in
    let s : acc + length (format_property p) + length (format_properties ps)
        ≡ acc + length (format_property p ++ format_properties ps) =
      omega (arith, len) in
    rw (sum_lengths, get_length-Fits p f.0, e)
      (sum_lengths-Fits (acc + length (format_property p)) ps f.1 (omega (arith, l, len)) ∙ ap ok s)

-- Properties that fit their identifiers, and are below 2^32 bytes together, measure for
-- `property__get_length_all` as many bytes as their format has.
pub get_length_all-format_properties :
    (ps : List Property)
    → AllFit ps
    → length (format_properties ps) < 2 ^ 32
    → get_length_all ps ≡ ok (length (format_properties ps))
unfolding get_length_all
get_length_all-format_properties ps f l =
    sum_lengths-Fits 0 ps f (omega arith) ∙ ap ok (omega arith)

write_value-Writes :
    (k : Kind) (p : Property)
    → Fits k p.value p.name
    → Writes (write_value k p) (format_value k p.value p.name)
unfolding write_value format_value format_binary
write_value-Writes k p f = go (Fits-Fitting k p.value p.name f)
  where
    go :
        {k : Kind} {v : Value} {name : List ℕ}
        → Fitting k v name
        → Writes (write_value k (record p { value = v; name = name })) (format_value k v name)
    go (fits_byte {v = v} {name = name} l) = write_byte-Writes v
    go (fits_two_bytes {v = v} {name = name} l) = write_uint16-Writes v
    go (fits_four_bytes {v = v} {name = name} l) = write_uint32-Writes v
    go (fits_variable {v = v} {name = name} l) = write_varint-Writes v l
    go (fits_text {s = s} {name = name} l enc) = write_string-Writes s l
    go (fits_binary {s = s} {name = name} l) =
        Writes-bind _ _ (format_uint16 (length s)) s (write_uint16-Writes (length s))
          (write_bytes-Writes s)
    go (fits_text_pair {s = s} {name = name} l enc l1 enc1) =
        Writes-bind _ _ (format_binary name) (format_binary s) (write_string-Writes name l1)
          (write_string-Writes s l)

write_property-Writes :
    (p : Property)
    → Fits (read_kind p.identifier) p.value p.name
    → Writes (write_property p) (format_property p)
unfolding write_property format_property
write_property-Writes p f =
    let known = read_kind-lt p.identifier (Fits-supported _ p.value p.name f) in
    rw (write_kind-read_kind p.identifier) (
      Writes-bind _ _ (format_varint p.identifier) _
        (write_varint-Writes p.identifier (omega arith))
        (write_value-Writes (read_kind p.identifier) p f))

pub write_properties-Writes :
    (ps : List Property) → AllFit ps → Writes (write_properties ps) (format_properties ps)
unfolding write_properties format_properties
write_properties-Writes [] f = return-Writes
write_properties-Writes (p ∷ ps) f =
    Writes-bind _ _ (format_property p) (format_properties ps) (write_property-Writes p f.0)
      (write_properties-Writes ps f.1)

abbrev pub format_all : List Property → List ℕ
format_all ps = format_varint (length (format_properties ps)) ++ format_properties ps

pub write_all-Writes :
    (ps : List Property)
    → AllFit ps
    → length (format_properties ps) < 2 ^ 28
    → Writes (write_all ps true) (format_all ps)
unfolding write_all
write_all-Writes ps f l =
    let n = length (format_properties ps) in
    rw (get_length_all-format_properties ps f (omega arith)) (
      Writes-bind (write_varint n) (write_properties ps) (format_varint n) (format_properties ps)
        (write_varint-Writes n l) (write_properties-Writes ps f))

-- `property__get_remaining_length` is the room that `property__write_all` then takes, where the
-- properties fit their identifiers and are below 2^28 bytes together: with that much room in the
-- packet it succeeds and moves on by exactly as much.
pub get_remaining_length-write_all :
    (ps : List Property) (p : Packet) (n : ℕ)
    → AllFit ps
    → length (format_properties ps) < 2 ^ 28
    → get_remaining_length ps ≡ ok n
    → HasRoom p n
    → ((write_all ps true p).0 ≡ success) × ((write_all ps true p).1.pos ≡ p.pos + n)
unfolding get_remaining_length
get_remaining_length-write_all ps p n f l e room =
    let len = length-format_varint (length (format_properties ps)) l in
    let size =
      length-append (format_varint (length (format_properties ps))) (format_properties ps) in
    let small : varint_bytes (length (format_properties ps)) < 6 =
      unfold varint_bytes in ground arith in
    let same : n ≡ length (format_all ps) =
      ground (arith, get_length_all-format_properties ps f (omega arith), len, size, small, e) in
    let w = write_all-Writes ps f l p (subst (HasRoom p) same room) in
    (w.done, omega (arith, w.moved, same))
