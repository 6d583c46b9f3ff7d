-- ===== src/Property/Lists.antt =====
-- What `property__read` and the loop of `property__read_all` accept.
use dimq.Prelude.{
  refl, inr, append_assoc, length-append, inl, ap, Bool-cases, ◌∙◌, sym, arith, subst, ◌++◌, ◌<◌, ℕ,
  zero, suc, ◌^◌, ◌≡◌, ◌==◌, true, false, List, [], ◌∷◌, length,
}
use dimq.Property.Parse.{parse_properties, parse_property}
use dimq.Property.Format.{
  length-format_property, format_properties, format_value, AllFit, format_property, Fits,
}
use dimq.Packet.Basic.{parse_malloc}
use dimq.Utf8.Sound.{AllBytes-append, AllBytes}
use dimq.Packet.Laws.{parse_varint_canonical}
use dimq.Packet.Format.{parse_varint, format_varint}
use dimq.Packet.Safe.{chain-ok}
use dimq.Property.{minus32}
use dimq.Property.Kinds.{read_kind, Property}
use dimq.Result.{Result, ok, err, fault}
use dimq.Packet.{Heap}
use dimq.Property.Parsed.{Took, parse_value-Took}

-- One property, with its identifier.
pub record Property1 (len : ℕ) (bs : List ℕ) (len' : ℕ) (prop : Property) (rest : List ℕ)
    : Type 0 where
  pub fits : Fits (read_kind prop.identifier) prop.value prop.name
  pub split : bs ≡ format_property prop ++ rest
  pub counted : len' ≡ minus32 len (length (format_property prop))
  pub from_wire : prop.client_generated ≡ false

finish_property :
    (len : ℕ) (bs r : List ℕ) (len' : ℕ) (prop : Property) (rest : List ℕ)
    → len < 2 ^ 32
    → length bs < 2 ^ 31
    → bs ≡ format_varint prop.identifier ++ r
    → Took (read_kind prop.identifier) prop.identifier (minus32 len 1) r len' prop rest
    → Property1 len bs len' prop rest
finish_property len bs r len' prop rest small short split took =
    let value = format_value (read_kind prop.identifier) prop.value prop.name in
    let size = length-format_property prop took.fits in
    let whole = ap length split ∙ length-append (format_varint prop.identifier) r in
    let part = ap length took.split ∙ length-append value rest in
    record {
      fits = took.fits;
      split =
          split
          ∙ ap (λ u. format_varint prop.identifier ++ u) took.split
          ∙ unfold format_property in sym (append_assoc (format_varint prop.identifier) value rest);
      counted = omega (arith, took.counted, size, whole, part);
      from_wire = took.from_wire;
    }

pub parse_property-ok :
    (len : ℕ) (bs : List ℕ) (h : Heap) (len' : ℕ) (prop : Property) (rest : List ℕ) (g : Heap)
    → len < 2 ^ 32
    → length bs < 2 ^ 31
    → AllBytes bs
    → parse_property len bs h ≡ ok ((len', prop), rest, g)
    → Property1 len bs len' prop rest
unfolding parse_property
parse_property-ok len bs h len' prop rest g small short b e =
    let (((n, count), r, k), p, q) = chain-ok parse_varint _ bs h ((len', prop), rest, g) e in
    let (_, split, _, _) = parse_varint_canonical h k n count r bs b p in
    let b' = AllBytes-append (format_varint n) r (subst AllBytes split b) in
    let took =
      parse_value-Took n (minus32 len 1) r k len' prop rest g (omega arith) b' (read_kind n) q in
    let same = sym took.same_identifier in
    finish_property len bs r len' prop rest small short
      (split ∙ ap (λ m. format_varint m ++ r) same)
      (subst (λ m. Took (read_kind m) m (minus32 len 1) r len' prop rest) same took)

abbrev pub FromWire : List Property → Type 0
FromWire [] = Unit
FromWire (p ∷ ps) = (p.client_generated ≡ false) × FromWire ps

-- What the loop gives.
pub record Properties (len : ℕ) (bs : List ℕ) (props : List Property) (rest : List ℕ) : Type 0 where
  pub fit : AllFit props
  pub taken : bs ≡ format_properties props ++ rest
  pub measured : len ≡ length (format_properties props)
  pub received : FromWire props

pub parse_malloc-ok :
    (bs : List ℕ) (h : Heap) (u : Unit {0}) (r : List ℕ) (g : Heap)
    → parse_malloc bs h ≡ ok (u, r, g)
    → bs ≡ r
parse_malloc-ok bs h u r g e = ground arith

abbrev PropertiesOf : ℕ → List ℕ → Result (List Property × List ℕ × Heap) → Type 0
PropertiesOf len bs (ok (props, rest, g)) = Properties len bs props rest
PropertiesOf len bs (err e) = ⊥
PropertiesOf len bs fault = ⊥

Properties-nil : (len : ℕ) (bs : List ℕ) → (len == 0) ≡ true → Properties len bs [] bs
Properties-nil len bs t = record {
  fit = tt;
  taken = unfold format_properties in refl;
  measured = unfold format_properties in ground arith;
  received = tt;
}

Properties-cons :
    (len len' : ℕ) (bs r : List ℕ) (prop : Property) (props : List Property) (rest : List ℕ)
    → len < 2 ^ 32
    → length bs < 2 ^ 31
    → Property1 len bs len' prop r
    → Properties len' r props rest
    → Properties len bs (prop ∷ props) rest
unfolding format_properties
Properties-cons len len' bs r prop props rest small short one more =
    let first = format_property prop in
    let others = format_properties props in
    let whole = ap length one.split ∙ length-append first r in
    let tail = ap length more.taken ∙ length-append others rest in
    record {
      fit = (one.fits, more.fit);
      taken = one.split ∙ ap (λ u. first ++ u) more.taken ∙ sym (append_assoc first others rest);
      measured = omega (
        arith,
        one.counted,
        more.measured,
        whole,
        tail,
        length-append first others,
        length-format_property prop one.fits,
      );
      received = (one.from_wire, more.received);
    }

pub parse_properties-ok :
    (fuel len : ℕ) (bs : List ℕ) (h : Heap) (props : List Property) (rest : List ℕ) (g : Heap)
    → len < 2 ^ 32
    → length bs < 2 ^ 31
    → AllBytes bs
    → parse_properties fuel len bs h ≡ ok (props, rest, g)
    → Properties len bs props rest
unfolding parse_properties
parse_properties-ok zero len bs h props rest g small short b e = cc
parse_properties-ok (suc fuel) len bs h props rest g small short b e =
    elim (Bool-cases (len == 0)) [
      | inl t ↦ subst (PropertiesOf len bs) (rw t at e) (Properties-nil len bs t)
      | inr t ↦
          let ((_, r0, k0), p0, q0) = chain-ok parse_malloc _ bs h (props, rest, g) (rw t at e) in
          let same = parse_malloc-ok bs h tt r0 k0 p0 in
          let b0 = subst AllBytes same b in
          let short0 = subst (λ u. length u < 2 ^ 31) same short in
          let (((len', prop), r1, k1), p1, q1) =
            chain-ok (parse_property len) _ r0 k0 (props, rest, g) q0 in
          let one = parse_property-ok len r0 k0 len' prop r1 k1 small short0 b0 p1 in
          let b1 = AllBytes-append (format_property prop) r1 (subst AllBytes one.split b0) in
          let ((ps, r2, k2), p2, q2) =
            chain-ok (parse_properties fuel len') _ r1 k1 (props, rest, g) q1 in
          let short1 : length r1 < 2 ^ 31 =
            omega (arith, short0, ap length one.split ∙ length-append (format_property prop) r1) in
          let more =
            parse_properties-ok fuel len' r1 k1 ps r2 k2 (omega (arith, one.counted)) short1 b1
              p2 in
          subst (PropertiesOf len bs) q2 (
            Properties-cons len len' bs r1 prop ps r2 small short
              (subst (λ u. Property1 len u len' prop r1) (sym same) one) more)
    ]
