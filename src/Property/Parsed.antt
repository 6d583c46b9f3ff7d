-- ===== src/Property/Parsed.antt =====
-- What `property__read` and `property__read_all` accept: the properties that they return, in the
-- format of each, and as many bytes as the property length says.
use dimq.Prelude.{
  sym, length-append, append_assoc, ap, ◌∙◌, refl, arith, subst, ◌++◌, ◌<◌, ℕ, ◌^◌, ◌≡◌, false,
  List, length,
}
use dimq.Packet.Safe.{
  parse_uint32-ok, parse_uint16-ok, parse_binary-ok, parse_string-ok, parse_byte-ok, chain-ok,
}
use dimq.Property.Kinds.{
  unsupported, four_bytes, variable, two_bytes, text_pair, binary, text, byte, Property, Kind,
}
use dimq.Packet.RoundTrip.{length-format_binary}
use dimq.Packet.Laws.{parse_varint_canonical}
use dimq.Packet.Format.{
  parse_uint32, parse_varint, parse_uint16, parse_binary, format_uint32, format_uint16,
  format_binary, parse_string, parse_byte,
}
use dimq.Utf8.Sound.{AllBytes-append, AllBytes}
use dimq.Word.{IsByte}
use dimq.Property.{minus32}
use dimq.Property.Parse.{parse_value}
use dimq.Property.Format.{format_value, Fits}
use dimq.Packet.{Heap}
use dimq.Result.{Result, ok, err, fault}

-- What one run of a parser of a value gives.
pub record Took (k : Kind) (n len : ℕ) (bs : List ℕ) (len' : ℕ) (prop : Property) (rest : List ℕ)
    : Type 0 where
  pub same_identifier : prop.identifier ≡ n
  pub fits : Fits k prop.value prop.name
  pub split : bs ≡ format_value k prop.value prop.name ++ rest
  pub counted : len' ≡ minus32 len (length (format_value k prop.value prop.name))
  pub from_wire : prop.client_generated ≡ false

abbrev TookOf : Kind → ℕ → ℕ → List ℕ → Result ((ℕ × Property) × List ℕ × Heap) → Type 0
TookOf k n len bs (ok ((len', prop), rest, g)) = Took k n len bs len' prop rest
TookOf k n len bs (err e) = ⊥
TookOf k n len bs fault = ⊥

module _ (n len : ℕ) (bs : List ℕ) (h : Heap) (len' : ℕ) (prop : Property) (rest : List ℕ)
    (g : Heap) (small : len < 2 ^ 32) (b : AllBytes bs) where
  take_byte :
      parse_value byte n len bs h ≡ ok ((len', prop), rest, g) → Took byte n len bs len' prop rest
  unfolding parse_value format_value
  take_byte e =
      let ((v, r, k), p, q) = chain-ok parse_byte _ bs h ((len', prop), rest, g) e in
      let split = parse_byte-ok bs h v r k p in
      let first : IsByte v = (subst AllBytes split b).0 in
      subst (TookOf byte n len bs) q (record {
        same_identifier = refl;
        fits = first;
        split = split;
        counted = refl;
        from_wire = refl;
      })

  take_two_bytes :
      parse_value two_bytes n len bs h ≡ ok ((len', prop), rest, g)
      → Took two_bytes n len bs len' prop rest
  unfolding parse_value format_value format_uint16
  take_two_bytes e =
      let ((v, r, k), p, q) = chain-ok parse_uint16 _ bs h ((len', prop), rest, g) e in
      let (small, split) = parse_uint16-ok bs h v r k b p in
      subst (TookOf two_bytes n len bs) q (record {
        same_identifier = refl;
        fits = small;
        split = split;
        counted = refl;
        from_wire = refl;
      })

  take_four_bytes :
      parse_value four_bytes n len bs h ≡ ok ((len', prop), rest, g)
      → Took four_bytes n len bs len' prop rest
  unfolding parse_value format_value format_uint32
  take_four_bytes e =
      let ((v, r, k), p, q) = chain-ok parse_uint32 _ bs h ((len', prop), rest, g) e in
      let (small, split) = parse_uint32-ok bs h v r k b p in
      subst (TookOf four_bytes n len bs) q (record {
        same_identifier = refl;
        fits = small;
        split = split;
        counted = refl;
        from_wire = refl;
      })

  take_variable :
      parse_value variable n len bs h ≡ ok ((len', prop), rest, g)
      → Took variable n len bs len' prop rest
  unfolding parse_value format_value
  take_variable e =
      let (((v, count), r, k), p, q) = chain-ok parse_varint _ bs h ((len', prop), rest, g) e in
      let (small, split, size, _) = parse_varint_canonical h k v count r bs b p in
      subst (TookOf variable n len bs) q (record {
        same_identifier = refl;
        fits = small;
        split = split;
        counted = ap (minus32 len) size;
        from_wire = refl;
      })

  minus32_field :
      (s : List ℕ)
      → length s < 2 ^ 16
      → minus32 (minus32 len 2) (length s) ≡ minus32 len (length (format_binary s))
  minus32_field s l = omega (arith, length-format_binary s)

  take_text :
      parse_value text n len bs h ≡ ok ((len', prop), rest, g) → Took text n len bs len' prop rest
  unfolding parse_value format_value
  take_text e =
      let ((v, r, k), p, q) = chain-ok parse_string _ bs h ((len', prop), rest, g) e in
      let (enc, l, split) = (parse_string-ok bs h b).1 v r k p in
      subst (TookOf text n len bs) q (record {
        same_identifier = refl;
        fits = (l, enc);
        split = split;
        counted = minus32_field v l;
        from_wire = refl;
      })

  take_binary :
      parse_value binary n len bs h ≡ ok ((len', prop), rest, g)
      → Took binary n len bs len' prop rest
  unfolding parse_value format_value
  take_binary e =
      let ((v, r, k), p, q) = chain-ok parse_binary _ bs h ((len', prop), rest, g) e in
      let (l, split) = parse_binary-ok bs h v r k b p in
      subst (TookOf binary n len bs) q (record {
        same_identifier = refl;
        fits = l;
        split = split;
        counted = minus32_field v l;
        from_wire = refl;
      })

  take_text_pair :
      parse_value text_pair n len bs h ≡ ok ((len', prop), rest, g)
      → Took text_pair n len bs len' prop rest
  unfolding parse_value format_value
  take_text_pair e =
      let ((s1, r1, k1), p1, q1) = chain-ok parse_string _ bs h ((len', prop), rest, g) e in
      let (enc1, l1, split1) = (parse_string-ok bs h b).1 s1 r1 k1 p1 in
      let b1 = AllBytes-append (format_binary s1) r1 (subst AllBytes split1 b) in
      let ((s2, r2, k2), p2, q2) = chain-ok parse_string _ r1 k1 ((len', prop), rest, g) q1 in
      let (enc2, l2, split2) = (parse_string-ok r1 k1 b1).1 s2 r2 k2 p2 in
      subst (TookOf text_pair n len bs) q2 (record {
        same_identifier = refl;
        fits = (l2, enc2, l1, enc1);
        split =
            split1
            ∙ ap (λ u. format_binary s1 ++ u) split2
            ∙ sym (append_assoc (format_binary s1) (format_binary s2) r2);
        counted = omega (
          arith,
          length-append (format_binary s1) (format_binary s2),
          length-format_binary s1,
          length-format_binary s2,
        );
        from_wire = refl;
      })

  pub parse_value-Took :
      (k : Kind)
      → parse_value k n len bs h ≡ ok ((len', prop), rest, g)
      → Took k n len bs len' prop rest
  parse_value-Took byte = take_byte
  parse_value-Took two_bytes = take_two_bytes
  parse_value-Took four_bytes = take_four_bytes
  parse_value-Took variable = take_variable
  parse_value-Took text = take_text
  parse_value-Took binary = take_binary
  parse_value-Took text_pair = take_text_pair
  parse_value-Took unsupported = λ e. unfold parse_value in cc
