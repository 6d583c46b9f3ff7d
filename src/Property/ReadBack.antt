-- ===== src/Property/ReadBack.antt =====
-- `property__read_all` after `property__write_all`.
use dimq.Prelude.{
  sym, append-nil, zero, ◌==◌, length-append, append_assoc, refl, ◌∙◌, ap, ℕ, suc, ◌<◌, ◌^◌, ◌≡◌,
  List, [], ◌∷◌, ◌++◌, length, true, false, arith, subst, map,
}
use dimq.Property.ReadAll.{read_all-Agrees, parse_all}
use dimq.Packet.RoundTrip.{read-write_at, length-format_binary, reopened}
use dimq.Result.{success, ok}
use dimq.Property.Check.{check_value, check_all, has_identifier}
use dimq.Property.Format.{
  Fits-supported, read_kind-lt, length-format_property, AllFit, Fits, Fitting, fits_byte,
  fits_two_bytes, fits_four_bytes, fits_variable, fits_text, fits_binary, fits_text_pair,
  Fits-Fitting, format_value, format_property, format_properties,
}
use dimq.Packet.Format.{
  format_uint32, format_uint16, format_varint, parse_varint, parse_uint32, parse_uint16,
  parse_string, format_binary, parse_byte, parse_binary,
}
use dimq.Property.Kinds.{
  bin, str, Property, Value, Kind, read_kind, byte, two_bytes, four_bytes, variable, text, binary,
  text_pair, unsupported,
}
use dimq.Property.{received, write_all, read_all, minus32}
use dimq.Packet.Laws.{
  parse_varint-format, parse_uint32-format, parse_uint16-format, parse_string-format,
  parse_binary-format, after_copy,
}
use dimq.Packet.Parse.{after, chain, Parse}
use dimq.Utf8.Sound.{Encodes}
use dimq.Property.Written.{format_all, write_all-Writes}
use dimq.Property.Parse.{parse_value, parse_property, parse_properties}
use dimq.Packet.{Heap, Packet}
use dimq.Packet.Write.{HasRoom}

-- An allocator that never refuses.
abbrev pub plenty : Heap
plenty i = true

after_copy-plenty : (s : List ℕ) → after_copy s plenty ≡ plenty
after_copy-plenty [] = refl
after_copy-plenty (x ∷ xs) = refl

-- The name goes on the wire in a pair only, and `client_generated` never.
abbrev pub received_name : Kind → List ℕ → List ℕ
received_name text_pair name = name
received_name byte name = []
received_name two_bytes name = []
received_name four_bytes name = []
received_name variable name = []
received_name text name = []
received_name binary name = []
received_name unsupported name = []

abbrev pub as_received : Property → Property
as_received p = record {
  identifier = p.identifier;
  value = p.value;
  name = received_name (read_kind p.identifier) p.name;
  client_generated = false;
}

parse_string-plenty :
    (s bs : List ℕ)
    → length s < 2 ^ 16
    → Encodes s
    → parse_string (format_binary s ++ bs) plenty ≡ ok (s, bs, plenty)
parse_string-plenty s bs l e =
    parse_string-format s bs plenty l e refl ∙ ap (λ h. ok (s, bs, h)) (after_copy-plenty s)

parse_binary-plenty :
    (s bs : List ℕ)
    → length s < 2 ^ 16
    → parse_binary (format_binary s ++ bs) plenty ≡ ok (s, bs, plenty)
parse_binary-plenty s bs l =
    parse_binary-format s bs plenty l refl ∙ ap (λ h. ok (s, bs, h)) (after_copy-plenty s)

chain-step :
    {A B : Type 0} (s : Parse A) (t : A → Parse B) (bs : List ℕ) (h : Heap) (y : A × List ℕ × Heap)
    → s bs h ≡ ok y
    → chain s t bs h ≡ t y.0 y.1 y.2
chain-step s t bs h y e = ap (λ r. after r t) e

module _ (n len : ℕ) (bs : List ℕ) where
  abbrev got : Kind → Value → List ℕ → ℕ × Property
  got k v name = (
    minus32 len (length (format_value k v name)),
    record { identifier = n; value = v; name = received_name k name; client_generated = false },
  )

  parse_value-Fitting :
      {k : Kind} {v : Value} {name : List ℕ}
      → len < 2 ^ 32
      → Fitting k v name
      → parse_value k n len (format_value k v name ++ bs) plenty ≡ ok (got k v name, bs, plenty)
  unfolding parse_value format_value parse_byte format_uint16 format_uint32
  parse_value-Fitting small (fits_byte {v = v} {name = name} l) = refl
  parse_value-Fitting small (fits_two_bytes {v = v} {name = name} l) =
      chain-step parse_uint16 _ _ plenty (v, bs, plenty) (parse_uint16-format v bs plenty l)
  parse_value-Fitting small (fits_four_bytes {v = v} {name = name} l) =
      chain-step parse_uint32 _ _ plenty (v, bs, plenty) (parse_uint32-format v bs plenty l)
  parse_value-Fitting small (fits_variable {v = v} {name = name} l) =
      chain-step parse_varint _ _ plenty ((v, length (format_varint v)), bs, plenty)
        (parse_varint-format v bs plenty l)
  parse_value-Fitting small (fits_text {s = s} {name = name} l enc) =
      chain-step parse_string _ _ plenty (s, bs, plenty) (parse_string-plenty s bs l enc)
      ∙ ap (λ m. ok ((m, received n (str s)), bs, plenty)) (omega (arith, length-format_binary s))
  parse_value-Fitting small (fits_binary {s = s} {name = name} l) =
      chain-step parse_binary _ _ plenty (s, bs, plenty) (parse_binary-plenty s bs l)
      ∙ ap (λ m. ok ((m, received n (bin s)), bs, plenty)) (omega (arith, length-format_binary s))
  parse_value-Fitting small (fits_text_pair {s = s} {name = name} l enc l1 enc1) =
      rw (append_assoc (format_binary name) (format_binary s) bs) (
        chain-step parse_string _ _ plenty (name, format_binary s ++ bs, plenty)
          (parse_string-plenty name (format_binary s ++ bs) l1 enc1)
        ∙ chain-step parse_string _ _ plenty (s, bs, plenty) (parse_string-plenty s bs l enc)
        ∙ ap
            (λ m. ok (
              (m, record { identifier = n; value = str s; name = name; client_generated = false }),
              bs,
              plenty,
            ))
            (omega (
              arith,
              length-append (format_binary name) (format_binary s),
              length-format_binary s,
              length-format_binary name,
            )))

parse_property-format :
    (p : Property) (len : ℕ) (bs : List ℕ)
    → len < 2 ^ 32
    → length (format_property p) < 2 ^ 28
    → Fits (read_kind p.identifier) p.value p.name
    → parse_property len (format_property p ++ bs) plenty
      ≡ ok ((minus32 len (length (format_property p)), as_received p), bs, plenty)
unfolding parse_property format_property
parse_property-format p len bs small short f =
    let n = p.identifier in
    let value = format_value (read_kind n) p.value p.name in
    let known = read_kind-lt n (Fits-supported _ p.value p.name f) in
    let size = length-format_property p f in
    rw (append_assoc (format_varint n) value bs) (
      chain-step parse_varint _ _ plenty ((n, length (format_varint n)), value ++ bs, plenty)
        (parse_varint-format n (value ++ bs) plenty (omega arith))
      ∙ parse_value-Fitting n (minus32 len 1) bs (omega arith)
          (Fits-Fitting (read_kind n) p.value p.name f)
      ∙ ap (λ m. ok ((m, as_received p), bs, plenty)) (omega (arith, short, size)))

parse_properties-format :
    (ps : List Property) (fuel : ℕ) (bs : List ℕ)
    → AllFit ps
    → length (format_properties ps) < 2 ^ 28
    → length (format_properties ps) < fuel
    → parse_properties fuel (length (format_properties ps)) (format_properties ps ++ bs) plenty
      ≡ ok (map as_received ps, bs, plenty)
unfolding parse_properties format_properties
parse_properties-format ps zero bs f l enough = absurd (omega arith)
parse_properties-format [] (suc fuel) bs f l enough = refl
parse_properties-format (p ∷ ps) (suc fuel) bs f l enough =
    let first = format_property p in
    let others = format_properties ps in
    let size = length-append first others in
    let least = length-format_property p f.0 in
    let some_left : (length (first ++ others) == 0) ≡ false = ground (arith, size, least) in
    let left : minus32 (length (first ++ others)) (length first) ≡ length others =
      omega (arith, size, l) in
    rw (some_left, append_assoc first others bs)
      (chain-step (parse_property (length (first ++ others))) _ _ plenty
          ((minus32 (length (first ++ others)) (length first), as_received p), others ++ bs, plenty)
          (parse_property-format p (length (first ++ others)) (others ++ bs) (omega arith)
            (omega (arith, l, size)) f.0)
        ∙ rw left (
            chain-step (parse_properties fuel (length others)) _ _ plenty
              (map as_received ps, bs, plenty)
              (parse_properties-format ps fuel bs f.1 (omega (arith, l, size))
                (omega (arith, enough, size, least)))))

has_identifier-as_received :
    (n : ℕ) (ps : List Property) → has_identifier n (map as_received ps) ≡ has_identifier n ps
unfolding has_identifier
has_identifier-as_received n [] = refl
has_identifier-as_received n (p ∷ ps) = rw (has_identifier-as_received n ps) refl

check_all-as_received :
    (command : ℕ) (ps : List Property)
    → check_all command (map as_received ps) ≡ check_all command ps
unfolding check_all check_value
check_all-as_received command [] = refl
check_all-as_received command (p ∷ ps) =
    rw (check_all-as_received command ps, has_identifier-as_received p.identifier ps) refl

parse_all-format :
    (command fuel : ℕ) (ps : List Property)
    → AllFit ps
    → length (format_properties ps) < 2 ^ 28
    → length (format_properties ps) < fuel
    → check_all command ps ≡ success
    → parse_all fuel command (format_all ps) plenty ≡ ok (map as_received ps, [], plenty)
parse_all-format command fuel ps f l enough good =
    let n = length (format_properties ps) in
    let ends : format_properties ps ++ [] ≡ format_properties ps =
      append-nil (format_properties ps) in
    let list = rw ends at (parse_properties-format ps fuel [] f l enough) in
    chain-step parse_varint _ _ plenty ((n, length (format_varint n)), format_properties ps, plenty)
      (parse_varint-format n (format_properties ps) plenty l)
    ∙ chain-step (parse_properties fuel n) _ _ plenty (map as_received ps, [], plenty) list
    ∙ rw (check_all-as_received command ps, good) refl

module _ (command : ℕ) (ps : List Property) (p : Packet) (fit : AllFit ps)
    (l : length (format_properties ps) < 2 ^ 28) (room : HasRoom p (length (format_all ps)))
    (sized : p.packet_length < 2 ^ 31) where
  abbrev written : Packet
  written = (write_all ps true p).1

  written-enough : length (format_properties ps) < suc (reopened p written).remaining_length
  written-enough =
      let n = length (format_properties ps) in
      let w = write_all-Writes ps fit l p room in
      omega (arith, w.moved, length-append (format_varint n) (format_properties ps))

-- Properties that fit their identifiers, pass `dimq_property_check_all` for the command and are
-- below 2^28 bytes together: where `property__write_all` with the length in front has room for them,
-- it succeeds, and `property__read_all` reads the same properties back in their order, if the
-- allocator never refuses. `client_generated` is not sent, nor the name of what is no pair.
pub read_all-write_all :
    (command : ℕ) (ps : List Property) (p : Packet)
    → AllFit ps
    → check_all command ps ≡ success
    → length (format_properties ps) < 2 ^ 28
    → HasRoom p (length (format_all ps))
    → p.packet_length < 2 ^ 31
    → p.heap ≡ plenty
    → ((write_all ps true p).0 ≡ success)
      × ((read_all command (reopened p (write_all ps true p).1)).0 ≡ ok (map as_received ps))
read_all-write_all command ps p fit good l room sized heap =
    let fuel = suc (reopened p (write_all ps true p).1).remaining_length in
    read-write_at (write_all ps true) (read_all command) (parse_all fuel command) (format_all ps)
      (map as_received ps) plenty p (write_all-Writes ps fit l)
      (read_all-Agrees command (reopened p (write_all ps true p).1)) room sized
      (subst (λ h. parse_all fuel command (format_all ps) h ≡ ok (map as_received ps, [], plenty))
        (sym heap)
        (parse_all-format command fuel ps fit l (written-enough command ps p fit l room sized)
          good))
